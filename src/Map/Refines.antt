-- ===== src/Map/Refines.antt =====
-- The operations of `OrderedMap` in src/map.rs on the list of entries that the map stands for.
use structio.Prelude.{
  ℕ, ◌%◌, ◌+◌, ◌-◌, ◌^◌, ◌≤◌, ◌<◌, ◌≡◌, refl, sym, ap, ◌∙◌, arith, Bool, true, false, Option, none,
  some, List, [], ◌∷◌, ◌++◌, ltb, leb, length, length-append, get_elem?, get_elem?-lt, set, inl,
  inr, Bool-cases, Option-cases, leb→lt, ltb→lt, le→ltb, lt→leb,
}
use structio.Map.{Table, shift_down_above, linear_max, max_indexed, hash_key, position}
use structio.Map.Ordered.{
  Lookup, occupied_at, vacant_at, OrderedMap, new, without, locate, find, get_key_value, get,
  contains_key, reindex, hash_or, push_new, insert, unplaced, remove_at, remove_entry,
}
use structio.Map.Good.{Good, Distinct}
use structio.Map.Robin.{tally}
use structio.Map.Find.{find_in-position}
use structio.Map.Build.{rebuild-Good, placed-Good, load_limit-lt}
use structio.Map.Taken.{taken}
use structio.Map.Shift.{length-without}
use structio.Map.Abstract.{
  entry_of, put, drop_key, entry_of-absent, put-absent, drop_key-absent, position-At, indexed-set,
  length-set_entry, Distinct-set, Distinct-append, Distinct-without,
}

-- The value of an entry, and whether there is one.
abbrev pub value_at {ℓ} : {V : Type ℓ} → Option (List ℕ × V) → Option V
value_at none = none
value_at (some e) = some e.1

abbrev pub found_at {ℓ} : {V : Type ℓ} → Option (List ℕ × V) → Bool
found_at none = false
found_at (some e) = true

-- What a lookup finds, by a scan, with the hash where there is a table.
scan_of : List ℕ → Option Table → Option ℕ → Lookup
scan_of key t (some p) = occupied_at p
scan_of key none none = vacant_at none
scan_of key (some t) none = vacant_at (some (hash_key key))

module _ {ℓ} {V : Type ℓ} where
  -- The table of a map: there is none, or it describes the entries, which are more than eight.
  abbrev pub Tabled : List (List ℕ × V) → Option Table → Type 0
  Tabled es none = Unit {0}
  Tabled es (some t) = Good t es × (linear_max < length es)

  pub record Valid (m : OrderedMap V) : Type 0 where
    pub distinct : Distinct m.entries
    pub short : length m.entries ≤ 2 ^ 30
    pub tabled : Tabled m.entries m.table

  pub new-Valid : Valid new
  unfolding new
  new-Valid = record { distinct = tt; short = omega arith; tabled = tt }

  module _ (key : List ℕ) where
    locate_lem :
        (es : List (List ℕ × V)) (t : Option Table)
        → Valid (record { entries = es; table = t })
        → locate key (record { entries = es; table = t }) ≡ some (scan_of key t (position key es))
    unfolding locate scan_of
    locate_lem es none v = elim (Option-cases (position key es)) [
      | inl n ↦ rw n refl
      | inr (p, n) ↦ rw n refl
    ]
    locate_lem es (some t) v =
        let g = v.tabled.0 in
        let found =
          find_in-position g (omega (arith, v.short)) key v.distinct
            (omega (arith, g.load, load_limit-lt (length t) g.sized.low)) in
        elim (Option-cases (position key es)) [
          | inl n ↦ rw (found, n) refl
          | inr (p, n) ↦ rw (found, n) refl
        ]

    find-position : (m : OrderedMap V) → Valid m → find key m ≡ some (position key m.entries)
    unfolding find scan_of
    find-position m v = elim (Option-cases (position key m.entries)) [
      | inl n ↦ rw (locate_lem m.entries m.table v, n) (neither m.table)
      | inr (p, n) ↦ rw (locate_lem m.entries m.table v, n) refl
    ]
      where
        neither :
            (t : Option Table)
            → elim (scan_of key t none) as (λ x. Option (Option ℕ)) [
              | occupied_at p ↦ some (some p)
              | vacant_at hash ↦ some none
            ]
              ≡ some none
        neither none = refl
        neither (some t) = refl

  -- For a valid map: `get_key_value`, `get` and `contains_key` return, and answer the entry of the
  -- key in the list of entries, its value, and whether there is one.
  pub get-entry_of :
      (key : List ℕ) (m : OrderedMap V)
      → Valid m
      → (get_key_value key m ≡ some (entry_of key m.entries))
        × (get key m ≡ some (value_at (entry_of key m.entries)))
        × (contains_key key m ≡ some (found_at (entry_of key m.entries)))
  unfolding get get_key_value contains_key
  get-entry_of key m v = elim (Option-cases (position key m.entries)) [
    | inl n ↦ rw (find-position key m v, n, entry_of-absent key m.entries n) (refl, refl, refl)
    | inr (p, n) ↦
        let (e, a) = position-At key m.entries p n in
        rw (find-position key m v, n, a.got, a.entry) (refl, refl, refl)
  ]

  Tabled-set :
      (es : List (List ℕ × V)) (p : ℕ) (e : List ℕ × V) (value : V) (t : Option Table)
      → get_elem? es p ≡ some e
      → Tabled es t
      → Tabled (set es p (e.0, value)) t
  Tabled-set es p e value none h d = tt
  Tabled-set es p e value (some t) h d =
      let same = length-set_entry es p (e.0, value) in
      let g = d.0 in
      (
        record {
          sized = g.sized;
          robin = g.robin;
          tallies = λ i k. g.tallies i k ∙ ap (tally i k) (sym (indexed-set 0 es p e value h));
          full = g.full ∙ sym same;
          load = omega (arith, g.load, same);
        },
        omega (arith, d.1, same),
      )

  -- A valid map of the entries `es`.
  Stands : List (List ℕ × V) → OrderedMap V → Type ℓ
  Stands es m = Valid m × (m.entries ≡ es)

  pub reindex-Valid :
      (m : OrderedMap V)
      → Distinct m.entries
      → length m.entries ≤ 2 ^ 30
      → (m' : OrderedMap V) × (reindex m ≡ some m') × Valid m' × (m'.entries ≡ m.entries)
  unfolding reindex
  reindex-Valid m d h = elim (Bool-cases (leb (length m.entries) linear_max)) [
    | inl e ↦
        rw e
          (record m { table = none }, refl, record { distinct = d; short = h; tabled = tt }, refl)
    | inr e ↦
        let (t, p, g) = rebuild-Good m.entries h in
        rw (e, le→ltb max_indexed (length m.entries) (omega (arith, h)), p)
          (
            record m { table = some t },
            refl,
            record { distinct = d; short = h; tabled = (g, leb→lt _ _ e) },
            refl,
          )
  ]

  module _ (key : List ℕ) (value : V) where
    -- The list of entries with the new one at its end.
    abbrev pushed : List (List ℕ × V) → List (List ℕ × V)
    pushed es = es ++ (key, value) ∷ []

    length-pushed : (es : List (List ℕ × V)) → length (pushed es) ≡ length es + 1
    length-pushed es = omega (arith, length-append es ((key, value) ∷ []))

    push_new-Valid :
        (hash : Option ℕ) (es : List (List ℕ × V)) (t : Option Table)
        → hash_or key hash ≡ hash_key key
        → Valid (record { entries = es; table = t })
        → length es < 2 ^ 30
        → position key es ≡ none
        → (m' : OrderedMap V) × (push_new key value hash (record { entries = es; table = t })
            ≡ some m')
          × Valid m'
          × (m'.entries ≡ pushed es)
    unfolding push_new
    push_new-Valid hash es none k v h n = elim (Bool-cases (leb (length (pushed es)) linear_max)) [
      | inl e ↦ rw e (
        record { entries = pushed es; table = none },
        refl,
        record {
          distinct = Distinct-append es (key, value) v.distinct n;
          short = omega (arith, length-pushed es);
          tabled = tt;
        },
        refl,
      )
      | inr e ↦
          rw (e, le→ltb max_indexed (length (pushed es)) (omega (arith, h, length-pushed es)))
            (reindex-Valid (record { entries = pushed es; table = none })
              (Distinct-append es (key, value) v.distinct n) (omega (arith, length-pushed es)))
    ]
    push_new-Valid hash es (some t) k v h n =
        let (t', p, g) = placed-Good t es (key, value) v.tabled.0 (omega arith) in
        rw
          (
            lt→leb (length (pushed es)) linear_max (omega (arith, v.tabled.1, length-pushed es)),
            le→ltb max_indexed (length (pushed es)) (omega (arith, h, length-pushed es)),
            k,
            p,
          )
          (
            record { entries = pushed es; table = some t' },
            refl,
            record {
              distinct = Distinct-append es (key, value) v.distinct n;
              short = omega (arith, length-pushed es);
              tabled = (g, omega (arith, v.tabled.1, length-pushed es));
            },
            refl,
          )

    -- A value in the place of another.
    replaced-Valid :
        (m : OrderedMap V) (p : ℕ) (e : List ℕ × V)
        → Valid m
        → get_elem? m.entries p ≡ some e
        → Valid (record m { entries = set m.entries p (e.0, value) })
    replaced-Valid m p e v h = record {
      distinct = Distinct-set m.entries p e value h v.distinct;
      short = omega (arith, v.short, length-set_entry m.entries p (e.0, value));
      tabled = Tabled-set m.entries p e value m.table h v.tabled;
    }

    insert-absent :
        (es : List (List ℕ × V)) (t : Option Table)
        → Valid (record { entries = es; table = t })
        → length es < 2 ^ 30
        → position key es ≡ none
        → (m' : OrderedMap V) × (insert key value (record { entries = es; table = t })
            ≡ some (none, m'))
          × Valid m'
          × (m'.entries ≡ pushed es)
    unfolding insert scan_of
    insert-absent es none v h n =
        let (m', p, w, e) = push_new-Valid none es none refl v h n in
        rw (locate_lem key es none v, n, p) (m', refl, w, e)
    insert-absent es (some t) v h n =
        let (m', p, w, e) = push_new-Valid (some (hash_key key)) es (some t) refl v h n in
        rw (locate_lem key es (some t) v, n, p) (m', refl, w, e)

    insert-present :
        (m : OrderedMap V) (p : ℕ) (e : List ℕ × V)
        → Valid m
        → position key m.entries ≡ some p
        → get_elem? m.entries p ≡ some e
        → insert key value m ≡ some (some e.1, record m { entries = set m.entries p (e.0, value) })
    unfolding insert scan_of
    insert-present m p e v n a = rw (locate_lem key m.entries m.table v, n, a) refl

    -- For a valid map of fewer than 2^30 entries: `insert` returns, answers the value that the key
    -- had, and leaves a valid map, whose list of entries has the value where the key stood, or the
    -- key with the value at its end.
    pub insert-put :
        (m : OrderedMap V)
        → Valid m
        → length m.entries < 2 ^ 30
        → (m' : OrderedMap V) × (insert key value m ≡ some (value_at (entry_of key m.entries), m'))
          × Valid m'
          × (m'.entries ≡ put key value m.entries)
    insert-put m v h = elim (Option-cases (position key m.entries)) [
      | inl n ↦
          let (m', p, w, e) = insert-absent m.entries m.table v h n in
          (
            m',
            p
                ∙ ap (λ (o : Option (List ℕ × V)). some (value_at o, m'))
                    (sym (entry_of-absent key m.entries n)),
            w,
            e ∙ sym (put-absent key value m.entries n),
          )
      | inr (p, n) ↦
          let (e, a) = position-At key m.entries p n in
          let m' = record m { entries = set m.entries p (e.0, value) } in
          (
            m',
            insert-present m p e v n a.got
                ∙ ap (λ (o : Option (List ℕ × V)). some (value_at o, m')) (sym a.entry),
            replaced-Valid m p e v a.got,
            sym (a.assigned value),
          )
    ]

  remove_at-Valid :
      (es : List (List ℕ × V)) (t : Option Table) (p : ℕ) (e : List ℕ × V)
      → Valid (record { entries = es; table = t })
      → get_elem? es p ≡ some e
      → (m' : OrderedMap V) × (remove_at p (record { entries = es; table = t }) ≡ some (e, m'))
        × Valid m'
        × (m'.entries ≡ without p es)
  unfolding remove_at unplaced
  remove_at-Valid es t p e v h = elim (Bool-cases (ltb linear_max (length es - 1))) [
    | inl c ↦ large t c v
    | inr c ↦ let (m', q, w, r) = dropped t in rw (h, c, q) (m', refl, w, r)
  ]
    where
      shorter : length (without p es) + 1 ≡ length es
      shorter = length-without p es (get_elem?-lt es p h)

      dropped :
          (t : Option Table)
          → (m' : OrderedMap V) × (reindex (record { entries = without p es; table = t }) ≡ some m')
            × Valid m'
            × (m'.entries ≡ without p es)
      dropped t =
          reindex-Valid (record { entries = without p es; table = t })
            (Distinct-without es p v.distinct) (omega (arith, v.short, shorter))

      narrow : p % 2 ^ 32 ≡ p
      narrow = omega (arith, v.short, get_elem?-lt es p h)

      large :
          (t : Option Table)
          → ltb linear_max (length es - 1) ≡ true
          → Valid (record { entries = es; table = t })
          → (m' : OrderedMap V) × (remove_at p (record { entries = es; table = t }) ≡ some (e, m'))
            × Valid m'
            × (m'.entries ≡ without p es)
      large none c v = let (m', q, w, r) = dropped none in rw (h, c, q) (m', refl, w, r)
      large (some t) c v =
          let (a, q, t', q', g) = taken v.tabled.0 v.short p e h in
          rw (h, c, narrow, q, q')
            (
              record { entries = without p es; table = some (shift_down_above p t') },
              refl,
              record {
                distinct = Distinct-without es p v.distinct;
                short = omega (arith, v.short, shorter);
                tabled = (g, omega (arith, ltb→lt _ _ c, shorter));
              },
              refl,
            )

  module _ (key : List ℕ) (m : OrderedMap V) (v : Valid m) where
    remove-absent : position key m.entries ≡ none → remove_entry key m ≡ some (none, m)
    unfolding remove_entry
    remove-absent n = rw (find-position key m v, n) refl

    remove-present :
        (p : ℕ) (e : List ℕ × V) (m' : OrderedMap V)
        → position key m.entries ≡ some p
        → remove_at p m ≡ some (e, m')
        → remove_entry key m ≡ some (some e, m')
    unfolding remove_entry
    remove-present p e m' n q = rw (find-position key m v, n, q) refl

    -- For a valid map: `remove_entry` returns, answers the entry of the key, and leaves a valid map,
    -- whose list of entries is the one before without that entry, the others in their order.
    pub remove_entry-drop_key :
        (m' : OrderedMap V) × (remove_entry key m ≡ some (entry_of key m.entries, m'))
        × Valid m'
        × (m'.entries ≡ drop_key key m.entries)
    remove_entry-drop_key = elim (Option-cases (position key m.entries)) [
      | inl n ↦ (
        m,
        remove-absent n
            ∙ ap (λ (o : Option (List ℕ × V)). some (o, m)) (sym (entry_of-absent key m.entries n)),
        v,
        sym (drop_key-absent key m.entries n),
      )
      | inr (p, n) ↦
          let (e, a) = position-At key m.entries p n in
          let (m', q, w, r) = remove_at-Valid m.entries m.table p e v a.got in
          (
            m',
            remove-present p e m' n q
                ∙ ap (λ (o : Option (List ℕ × V)). some (o, m')) (sym a.entry),
            w,
            r ∙ sym a.dropped,
          )
    ]
