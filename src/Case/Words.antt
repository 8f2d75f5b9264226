-- ===== src/Case/Words.antt =====
-- What `write_cased` of src/case.rs writes, against the words of the name.
use structio.Prelude.{
  ℕ, zero, suc, ◌+◌, ◌≤◌, ◌<◌, ◌≡◌, refl, sym, ap, ◌∙◌, arith, Bool, true, false, ◌&&◌, none, some,
  List, [], ◌∷◌, ◌++◌, map, ltb, ◌==◌, if◌then◌else◌, length, get_or, drop, inl, inr, Bool-cases,
  ltb→lt, ltb→le,
}
use structio.Case.{
  Style, Word, first, rest, sep, separator, underscore, starts_word, starts_from, words, words_from,
  spell, spelling, write_cased, cased,
}
use structio.Case.Written.{
  bytes_of, sep_bytes, spelled, emit_from, emitted, emit_skip, emit_byte, write_from-Writes,
}
use structio.Case.Length.{cased_exactly}
use mathlib.Core.Path.{subst}
use mathlib.Core.List.{append_assoc}

-- The bytes that go on with the word that is open, then the words that begin behind it.
abbrev Split : Type 0
Split = List ℕ × List (List ℕ)

split_byte : Bool → ℕ → Split → Split
split_byte true b (going, later) = ([], (b ∷ going) ∷ later)
split_byte false b (going, later) = (b ∷ going, later)

split_from : List ℕ → ℕ → ℕ → Split
unfolding split_byte
split_from b i zero = ([], [])
split_from b i (suc rounds) =
    let behind = split_from b (i + 1) rounds in
    if get_or b i 0 == underscore
    then behind
    else split_byte (starts_word b i) (get_or b i 0) behind

-- The words of a name, its separators dropped.
unfoldable pub word_list : List ℕ → List (List ℕ)
unfolding split_from
word_list name = (split_from name 0 (length name)).1

-- A word is spelled by its first byte and the others.
unfoldable pub spell_word : Word → List ℕ → List ℕ
spell_word w [] = []
spell_word w (c ∷ cs) = spell w true c ∷ map (spell w false) cs

unfoldable pub join_rest : Style → List (List ℕ) → List ℕ
join_rest s [] = []
join_rest s (w ∷ ws) = bytes_of (sep s) ++ (spell_word (rest s) w ++ join_rest s ws)

-- The words joined by the separator, the first one spelled in its own way.
unfoldable pub join : Style → List (List ℕ) → List ℕ
join s [] = []
join s (w ∷ ws) = spell_word (first s) w ++ join_rest s ws

module _ (b : List ℕ) (s : Style) where
  abbrev going_on : ℕ → Split → List ℕ
  going_on written (going, later) =
      map (spell (spelling s (suc written)) false) going ++ join_rest s later

  spelling-rest : (written : ℕ) → spelling s (suc (suc written)) ≡ rest s
  unfolding spelling
  spelling-rest written = ground arith

  after_word : (written : ℕ) → ltb 0 (suc written) ≡ true
  after_word written = ground arith

  -- One byte, in front of what follows it.
  byte_joined :
      (starts : Bool) (c written : ℕ) (behind : Split)
      → bytes_of (if starts && ltb 0 (suc written) then sep s else none)
          ++ (spell (spelling s (if starts then suc (suc written) else suc written)) starts c
              ∷ going_on (if starts then suc written else written) behind)
        ≡ going_on written (split_byte starts c behind)
  unfolding split_byte join_rest spell_word
  byte_joined true c written (going, later) = rw (spelling-rest written, after_word written) refl
  byte_joined false c written (going, later) = refl

  abbrev IsJoined : ℕ → ℕ → ℕ → Type 0
  IsJoined rounds i written =
      emit_from b s i (suc written) rounds ≡ going_on written (split_from b i rounds)

  step-IsJoined :
      (rounds i written : ℕ)
      → (get_or b i 0 == underscore) ≡ false
      → ((w : ℕ) → IsJoined rounds (i + 1) w)
      → IsJoined (suc rounds) i written
  unfolding split_from separator
  step-IsJoined rounds i written e ih =
      emit_byte b s i (suc written) rounds e
      ∙ append_assoc (sep_bytes s (starts_word b i) (suc written))
          (spelled b s i (suc written) ∷ []) _
      ∙ ap
          (λ (t : List ℕ).
            sep_bytes s (starts_word b i) (suc written) ++ (spelled b s i (suc written) ∷ t))
          (later (starts_word b i))
      ∙ byte_joined (starts_word b i) (get_or b i 0) written (split_from b (i + 1) rounds)
      ∙ sym (ap (going_on written) (split_one e))
    where
      later :
          (starts : Bool)
          → emit_from b s (i + 1) (if starts then suc (suc written) else suc written) rounds
            ≡ going_on (if starts then suc written else written) (split_from b (i + 1) rounds)
      later true = ih (suc written)
      later false = ih written

      split_one :
          (get_or b i 0 == underscore) ≡ false
          → split_from b i (suc rounds)
            ≡ split_byte (starts_word b i) (get_or b i 0) (split_from b (i + 1) rounds)
      split_one e = rw (e, split_from)

  emit-going : (rounds i written : ℕ) → IsJoined rounds i written
  unfolding split_from emit_from join_rest
  emit-going zero i written = refl
  emit-going (suc rounds) i written = elim (Bool-cases (get_or b i 0 == underscore)) [
    | inl e ↦
        emit_skip b s i (suc written) rounds e
        ∙ rw (split_from, e) (emit-going rounds (i + 1) written)
    | inr e ↦ step-IsJoined rounds i written e (λ w. emit-going rounds (i + 1) w)
  ]

  -- There is nothing but separators in front of `i`.
  abbrev Bare : ℕ → Type 0
  Bare i = (j : ℕ) → j < i → (get_or b j 0 == underscore) ≡ true

  starts_from-Bare :
      (i k : ℕ) → ((j : ℕ) → j < k → (get_or b j 0 == underscore) ≡ true) → starts_from b i k ≡ true
  unfolding starts_from
  starts_from-Bare i zero h = refl
  starts_from-Bare i (suc k) h =
      rw (starts_from, h k (omega arith)) (starts_from-Bare i k (λ j l. h j (omega arith)))

  -- The first word is open nowhere.
  abbrev Opens : ℕ → ℕ → Type 0
  Opens rounds i =
      ((split_from b i rounds).0 ≡ [])
      × (emit_from b s i 0 rounds ≡ join s (split_from b i rounds).1)

  open_joined :
      (c : ℕ) (behind : Split) (later : List ℕ)
      → later ≡ going_on 0 behind
      → ((split_byte true c behind).0 ≡ [])
        × (spell (spelling s 1) true c ∷ later ≡ join s (split_byte true c behind).1)
  unfolding split_byte join spell_word spelling
  open_joined c (going, more) later e = (refl, ap (λ (t : List ℕ). spell (first s) true c ∷ t) e)

  Bare-next : (i : ℕ) → Bare i → (get_or b i 0 == underscore) ≡ true → Bare (i + 1)
  Bare-next i h e j l = elim (Bool-cases (ltb j i)) [
    | inl k ↦ h j (ltb→lt j i k)
    | inr k ↦ ap (λ (t : ℕ). get_or b t 0 == underscore) (omega (arith, l, ltb→le j i k)) ∙ e
  ]

  emit-Opens : (rounds i : ℕ) → Bare i → Opens rounds i
  unfolding split_from emit_from join separator starts_word
  emit-Opens zero i h = (refl, refl)
  emit-Opens (suc rounds) i h = elim (Bool-cases (get_or b i 0 == underscore)) [
    | inl e ↦ rw e (emit-Opens rounds (i + 1) (Bare-next i h e))
    | inr e ↦
        rw (e, starts_from-Bare i i h)
          (open_joined (get_or b i 0) (split_from b (i + 1) rounds) _ (emit-going rounds (i + 1) 0))
  ]

length-split_byte :
    (starts : Bool) (c : ℕ) (behind : Split)
    → length (split_byte starts c behind).1
      ≡ (if starts then suc (length behind.1) else length behind.1)
unfolding split_byte
length-split_byte true c (going, later) = refl
length-split_byte false c (going, later) = refl

length-split_from :
    (b : List ℕ) (rounds i : ℕ) → length (split_from b i rounds).1 ≡ words_from b i rounds
unfolding split_from words_from
length-split_from b zero i = refl
length-split_from b (suc rounds) i = elim (Bool-cases (get_or b i 0 == underscore)) [
  | inl e ↦ rw e (length-split_from b rounds (i + 1))
  | inr e ↦ rw e (
      length-split_byte (starts_word b i) (get_or b i 0) (split_from b (i + 1) rounds)
      ∙ ap (λ (n : ℕ). if starts_word b i then suc n else n) (length-split_from b rounds (i + 1)))
]

emitted-join :
    (name : List ℕ) (s : Style)
    → (emitted name s ≡ join s (word_list name)) × (length (word_list name) ≡ words name)
unfolding emitted word_list words
emitted-join name s = (
  (emit-Opens name s (length name) 0 (λ j l. absurd (omega arith))).1,
  length-split_from name (length name) 0,
)

-- Over an output with room for them, `write_cased` writes the words of the name joined by the separator
-- of the rule, the first word in the rule's spelling of a first word and the others in its spelling of
-- the rest, returns how many bytes they are, and leaves the rest of the output as it was; `cased` at
-- their exact length returns them; and there are as many words as `words` counts.
pub write_cased-join :
    (name : List ℕ) (s : Style) (out : List ℕ)
    → length (join s (word_list name)) ≤ length out
    → let joined = join s (word_list name) in
      (write_cased name s out ≡ some (length joined, joined ++ drop (length joined) out))
      × (cased (length joined) name s ≡ some joined)
      × (length (word_list name) ≡ words name)
unfolding write_cased emitted
write_cased-join name s out h =
    let (e, n) = emitted-join name s in
    (
      subst (λ (bs : List ℕ). write_cased name s out ≡ some (length bs, bs ++ drop (length bs) out))
          e (write_from-Writes name s (length name) 0 0 [] out (omega (arith, h, ap length e))),
      subst (λ (bs : List ℕ). cased (length bs) name s ≡ some bs) e (cased_exactly name s),
      n,
    )
