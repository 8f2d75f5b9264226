-- ===== src/Beve/Reader/Reads.antt =====
-- Walks of src/beve/reader.rs over bytes that are known: what each reads, and where it stops.
use structio.Prelude.{
  ℕ, suc, ◌+◌, ◌^◌, ◌≤◌, ◌<◌, ◌≡◌, refl, sym, ap, ◌∙◌, arith, none, some, List, [], ◌∷◌, ◌++◌,
  length, length-append, get_elem?-append_length, get_elem?, take as take_list, take-drop-between,
  drop, lt→ltb,
}
use structio.Error.{PResult, ok}
use structio.Beve.Walk.{Reader, Walk, pure, lift, ◌>>=◌}
use structio.Beve.Header.{max_size, size_len, decode_size}
use structio.Beve.Header.Size.{size_bytes, length-size_bytes}
use structio.Beve.Header.Decode.{decode_size-size_bytes}
use structio.Beve.Reader.{
  head, take, drop_bytes, size, count, as_count, nested, enter, leaving, leave,
}
use structio.Beve.Reader.Local.{head-some, take_ok, size_ok}
use mathlib.Core.List.{append-nil, append_assoc}
use mathlib.Core.Path.{subst}

-- The bytes `bs` are next, in a document shorter than 2^64, and no header is implied.
pub record Ahead (bs : List ℕ) (r : Reader) : Type 0 where
  pub front : List ℕ
  pub back : List ℕ
  pub split : r.bytes ≡ front ++ (bs ++ back)
  pub here : r.pos ≡ length front
  pub unimplied : r.implied ≡ none
  pub fits : length r.bytes < 2 ^ 64

abbrev pub past : ℕ → Reader → Reader
past n r = record r { pos = r.pos + n }

pub Ahead-left : {bs : List ℕ} (cs : List ℕ) {r : Reader} → Ahead (bs ++ cs) r → Ahead bs r
Ahead-left {bs} cs a = record {
  front = a.front;
  back = cs ++ a.back;
  split = a.split ∙ ap (λ (t : List ℕ). a.front ++ t) (append_assoc bs cs a.back);
  here = a.here;
  unimplied = a.unimplied;
  fits = a.fits;
}

pub Ahead-right :
    (bs : List ℕ) {cs : List ℕ} {r : Reader} → Ahead (bs ++ cs) r → Ahead cs (past (length bs) r)
Ahead-right bs {cs} a = record {
  front = a.front ++ bs;
  back = a.back;
  split =
      a.split
      ∙ ap (λ (t : List ℕ). a.front ++ t) (append_assoc bs cs a.back)
      ∙ sym (append_assoc a.front bs (cs ++ a.back));
  here = omega (arith, a.here, length-append a.front bs);
  unimplied = a.unimplied;
  fits = a.fits;
}

pub Ahead-extent : {bs : List ℕ} {r : Reader} → Ahead bs r → r.pos + length bs ≤ length r.bytes
Ahead-extent {bs} a = omega (
  arith,
  a.here,
  ap length a.split,
  length-append a.front (bs ++ a.back),
  length-append bs a.back,
)

-- With `bs` next and room for `levels` more levels, the walk answers `a` at their end.
pub record Reads {ℓ} {A : Type ℓ} (levels : ℕ) (bs : List ℕ) (m : Walk A) (a : A) : Type ℓ where
  pub at : (r : Reader) → Ahead bs r → r.depth + levels ≤ 256 → m r ≡ (ok a, past (length bs) r)

past_eq : (m : ℕ) {n : ℕ} (r : Reader) → r.pos + m ≡ n → past m r ≡ record r { pos = n }
past_eq m r e = ap (λ (t : ℕ). record r { pos = t }) e

bind_ok {ℓ κ} :
    {A : Type ℓ} {B : Type κ} (m : Walk A) (f : A → Walk B) (a : A) (r r' : Reader)
    → m r ≡ (ok a, r')
    → (m >>= f) r ≡ f a r'
unfolding ◌>>=◌
bind_ok m f a r r' e = rw (◌>>=◌, e)

module _ {ℓ} {A : Type ℓ} where
  pub Reads-pure : (levels : ℕ) (a : A) → Reads levels [] (pure a) a
  unfolding pure
  Reads-pure levels a = record {
    at = λ r h k. ap (λ (t : Reader). (ok a, t)) (sym (past_eq 0 r (omega arith)));
  }

  pub Reads-lift : (levels : ℕ) (x : PResult A) (a : A) → x ≡ ok a → Reads levels [] (lift x) a
  unfolding lift
  Reads-lift levels x a e = record {
    at = λ r h k. rw e (ap (λ (t : Reader). (ok a, t)) (sym (past_eq 0 r (omega arith))));
  }

  pub Reads-bind {κ} :
      {B : Type κ} {levels : ℕ} {bs cs : List ℕ} {m : Walk A} (f : A → Walk B) (a : A) {b : B}
      → Reads levels bs m a
      → Reads levels cs (f a) b
      → Reads levels (bs ++ cs) (m >>= f) b
  Reads-bind {bs} {cs} {m} f a {b} x y = record {
    at = λ r h k.
        bind_ok m f a r (past (length bs) r) (x.at r (Ahead-left cs h) k)
        ∙ y.at (past (length bs) r) (Ahead-right bs h) k
        ∙ ap (λ (t : ℕ). (ok b, record r { pos = t })) (omega (arith, length-append bs cs));
  }

  -- Where the rest reads nothing more.
  pub Reads-last {κ} :
      {B : Type κ} {levels : ℕ} {bs : List ℕ} {m : Walk A} (f : A → Walk B) (a : A) {b : B}
      → Reads levels bs m a
      → Reads levels [] (f a) b
      → Reads levels bs (m >>= f) b
  Reads-last {levels} {bs} {m} f a {b} x y =
      subst (λ (t : List ℕ). Reads levels t (m >>= f) b) (append-nil bs) (Reads-bind f a x y)

  pub Reads-weaken :
      {n levels : ℕ} {bs : List ℕ} {m : Walk A} {a : A}
      → n ≤ levels
      → Reads n bs m a
      → Reads levels bs m a
  Reads-weaken l x = record { at = λ r h k. x.at r h (omega (arith, k, l)) }

  entered :
      (m : Walk A) (r : Reader)
      → r.depth < 256
      → nested m r ≡ leaving m (record r { depth = r.depth + 1 })
  unfolding nested
  entered m r h = bind_ok enter (λ _. leaving m) tt r _ (enter_ok r h)
    where
      enter_ok : (r : Reader) → r.depth < 256 → enter r ≡ (ok tt, record r { depth = r.depth + 1 })
      enter_ok r h = unfold enter in ground arith

  left : (m : Walk A) (r r' : Reader) (a : A) → m r ≡ (ok a, r') → leaving m r ≡ (ok a, leave r')
  unfolding leaving
  left m r r' a e = rw (leaving, e)

  pub Reads-nested :
      {levels : ℕ} {bs : List ℕ} {m : Walk A} {a : A}
      → Reads levels bs m a
      → Reads (suc levels) bs (nested m) a
  unfolding leave
  Reads-nested {bs} {m} {a} x = record {
    at = λ r h k.
        entered m r (omega arith)
        ∙ left m _ _ a (x.at (record r { depth = r.depth + 1 }) (deeper h) (omega arith))
        ∙ ap (λ (t : ℕ). (ok a, record r { pos = r.pos + length bs; depth = t })) (omega arith);
  }
    where
      deeper : {r : Reader} → Ahead bs r → Ahead bs (record r { depth = r.depth + 1 })
      deeper h = record {
        front = h.front;
        back = h.back;
        split = h.split;
        here = h.here;
        unimplied = h.unimplied;
        fits = h.fits;
      }

next_byte : (r : Reader) (b : ℕ) → Ahead (b ∷ []) r → get_elem? r.bytes r.pos ≡ some b
next_byte r b h =
    ap (get_elem? r.bytes) (omega (arith, h.here))
    ∙ ap (λ (t : List ℕ). get_elem? t (length h.front + 0)) h.split
    ∙ get_elem?-append_length h.front (b ∷ h.back) 0

pub Reads-head : (levels b : ℕ) → Reads levels (b ∷ []) head b
Reads-head levels b = record { at = λ r h k. head-some r b h.unimplied (next_byte r b h) }

take-length : (bs : List ℕ) → take_list (length bs) bs ≡ bs
take-length [] = refl
take-length (b ∷ bs) = ap (λ (t : List ℕ). b ∷ t) (take-length bs)

next_bytes :
    (r : Reader) (bs : List ℕ) → Ahead bs r → take_list (length bs) (drop r.pos r.bytes) ≡ bs
next_bytes r bs h =
    ap (λ (t : ℕ). take_list (length bs) (drop t r.bytes)) (omega (arith, h.here))
    ∙ ap (λ (t : List ℕ). take_list (length bs) (drop (length h.front + 0) t)) h.split
    ∙ take-drop-between (length bs) 0 h.front bs h.back (omega arith)
    ∙ take-length bs

pub Reads-take : (levels : ℕ) (bs : List ℕ) → Reads levels bs (take (length bs)) bs
Reads-take levels bs = record {
  at = λ r h k.
      take_ok (length bs) r (omega (arith, h.fits, Ahead-extent h)) (Ahead-extent h)
      ∙ ap (λ (t : List ℕ). (ok t, past (length bs) r)) (next_bytes r bs h);
}

pub Reads-drop_bytes :
    (levels n : ℕ) (bs : List ℕ) → length bs ≡ n → Reads levels bs (drop_bytes n) tt
unfolding drop_bytes
Reads-drop_bytes levels n bs e =
    subst (λ (t : ℕ). Reads levels bs (drop_bytes t) tt) e
      (subst (λ (t : List ℕ). Reads levels t (drop_bytes (length bs)) tt) (append-nil bs)
        (Reads-bind _ bs (Reads-take levels bs) (Reads-pure levels tt)))

pub Reads-size : (levels n : ℕ) → n ≤ max_size → Reads levels (size_bytes n) size n
Reads-size levels n g = record {
  at = λ r h k.
      size_ok r n (length h.front + size_len n) (
        ap (λ (t : ℕ). decode_size r.bytes t) h.here
        ∙ ap (λ (t : List ℕ). decode_size t (length h.front)) h.split
        ∙ decode_size-size_bytes n h.front h.back g)
      ∙ ap (λ (t : ℕ). (ok n, record r { pos = t })) (omega (arith, h.here, length-size_bytes n));
}

as_count_ok : (n : ℕ) → n ≤ max_size → as_count n ≡ ok n
unfolding as_count
as_count_ok n g = rw (as_count, lt→ltb n (2 ^ 64) (omega arith))

pub Reads-count : (levels n : ℕ) → n ≤ max_size → Reads levels (size_bytes n) count n
unfolding count
Reads-count levels n g =
    subst (λ (t : List ℕ). Reads levels t count n) (append-nil (size_bytes n))
      (Reads-bind _ n (Reads-size levels n g) (Reads-lift levels (as_count n) n (as_count_ok n g)))
