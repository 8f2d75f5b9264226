-- ===== src/Beve/Reader/Local.antt =====
-- The primitives of src/beve/reader.rs, and the predicate of `Walk.Local`.
use structio.Prelude.{
  ℕ, ◌+◌, ◌^◌, ◌≤◌, ◌<◌, ◌≡◌, refl, ◌∙◌, arith, true, false, none, some, List, [], ◌++◌, length,
  inl, inr, get_elem?, take as take_list, drop, ltb, Bool-cases, Option-cases, length-append,
  get_elem?-lt, get_elem?-append_length, get_elem?-append_left, take-drop-between, ltb→lt, ltb→le,
}
use structio.Error.{ok, err, unexpected_end}
use structio.Beve.Walk.{Reader}
use structio.Beve.Walk.Local.{embed, Final, Carried, Fits, Local}
use structio.Beve.Header.{decode_size}
use structio.Beve.Header.Extent.{decode_size-cases}
use structio.Beve.Header.Context.{
  decode_size-append, decode_size-append_length, decode_size-append_length_end,
}
use structio.Beve.Reader.{head, take, size}
use mathlib.Core.List.{append-nil}

-- Indexing where the bytes stand between others.
pub get_elem?-between :
    (pre bytes more : List ℕ) (i : ℕ)
    → i < length bytes
    → get_elem? (pre ++ (bytes ++ more)) (length pre + i) ≡ get_elem? bytes i
get_elem?-between pre bytes more i h =
    get_elem?-append_length pre (bytes ++ more) i ∙ get_elem?-append_left bytes more i h

pub head-some :
    (r : Reader) (b : ℕ)
    → r.implied ≡ none
    → get_elem? r.bytes r.pos ≡ some b
    → head r ≡ (ok b, record r { pos = r.pos + 1 })
unfolding head
head-some r b e f = ground arith

pub head-none :
    (r : Reader)
    → r.implied ≡ none
    → get_elem? r.bytes r.pos ≡ none
    → head r ≡ (err unexpected_end, r)
unfolding head
head-none r e f = ground arith

head_implied :
    (r : Reader) (h : ℕ) → r.implied ≡ some h → head r ≡ (ok h, record r { implied = none })
unfolding head
head_implied r h e = ground arith

pub Final-end : {more : List ℕ} → Final unexpected_end more → more ≡ []
Final-end (inl h) = absurd (h refl)
Final-end (inr e) = e

module _ (pre more : List ℕ) (r : Reader) where
  Carried-head : Carried pre more (head r) (head (embed pre more r))
  Carried-head = elim (Option-cases r.implied) [
    | inr (h, e) ↦ rw (head_implied r h e) (head_implied (embed pre more r) h e)
    | inl e ↦ elim (Option-cases (get_elem? r.bytes r.pos)) [
      | inr (b, f) ↦
          rw (head-some r b e f) (ground (arith, head-some (embed pre more r) b e (found b f)))
      | inl f ↦
          rw (head-none r e f) (λ fin. head-none (embed pre more r) e (missing f (Final-end fin)))
    ]
  ]
    where
      found :
          (b : ℕ)
          → get_elem? r.bytes r.pos ≡ some b
          → get_elem? (pre ++ (r.bytes ++ more)) (length pre + r.pos) ≡ some b
      found b f = get_elem?-between pre r.bytes more r.pos (get_elem?-lt r.bytes r.pos f) ∙ f

      missing :
          get_elem? r.bytes r.pos ≡ none
          → more ≡ []
          → get_elem? (pre ++ (r.bytes ++ more)) (length pre + r.pos) ≡ none
      missing f e = rw (e, append-nil) (get_elem?-append_length pre r.bytes r.pos ∙ f)

pub Local-head : Local head
Local-head = record { at = λ pre more r _. Carried-head pre more r }

pub take_ok :
    (n : ℕ) (r : Reader)
    → r.pos + n < 2 ^ 64
    → r.pos + n ≤ length r.bytes
    → take n r ≡ (ok (take_list n (drop r.pos r.bytes)), record r { pos = r.pos + n })
unfolding take
take_ok n r h k = ground arith

take_end : (n : ℕ) (r : Reader) → length r.bytes < r.pos + n → take n r ≡ (err unexpected_end, r)
unfolding take
take_end n r h = ground arith

module _ (pre more : List ℕ) (r : Reader) (n : ℕ) (fits : Fits pre r) where
  Carried-take : Carried pre more (take n r) (take n (embed pre more r))
  Carried-take = elim (Bool-cases (ltb (length r.bytes) (r.pos + n))) [
    | inl short ↦
        rw (take_end n r (ltb→lt _ _ short))
          (λ fin. take_end n (embed pre more r) (stays short (Final-end fin)))
    | inr long ↦ rw (take_ok n r (omega (arith, ltb→le _ _ long)) (ltb→le _ _ long)) (
        ground (
          arith,
          take_ok n (embed pre more r) (omega (arith, ltb→le _ _ long)) (room long),
          take-drop-between n r.pos pre r.bytes more (ltb→le _ _ long),
        ))
  ]
    where
      stays :
          ltb (length r.bytes) (r.pos + n) ≡ true
          → more ≡ []
          → length (pre ++ (r.bytes ++ more)) < length pre + r.pos + n
      stays s e = rw (e, append-nil, length-append) (omega (arith, ltb→lt _ _ s))

      room :
          ltb (length r.bytes) (r.pos + n) ≡ false
          → length pre + r.pos + n ≤ length (pre ++ (r.bytes ++ more))
      room s = rw (length-append, length-append) (omega (arith, ltb→le _ _ s))

pub Local-take : (n : ℕ) → Local (take n)
Local-take n = record { at = λ pre more r fits. Carried-take pre more r n fits }

pub size_ok :
    (r : Reader) (v end : ℕ)
    → decode_size r.bytes r.pos ≡ ok (v, end)
    → size r ≡ (ok v, record r { pos = end })
unfolding size
size_ok r v end e = ground arith

size_end :
    (r : Reader) → decode_size r.bytes r.pos ≡ err unexpected_end → size r ≡ (err unexpected_end, r)
unfolding size
size_end r e = ground arith

module _ (pre more : List ℕ) (r : Reader) where
  Carried-size : Carried pre more (size r) (size (embed pre more r))
  Carried-size = elim (decode_size-cases r.bytes r.pos) [
    | inl (v, end, e, _, _) ↦ rw (size_ok r v end e) (
        size_ok (embed pre more r) v (length pre + end) (
          decode_size-append_length pre (r.bytes ++ more) r.pos v end
            (decode_size-append r.bytes more r.pos v end e)))
    | inr e ↦ rw (size_end r e) (λ fin. size_end (embed pre more r) (stays e (Final-end fin)))
  ]
    where
      stays :
          decode_size r.bytes r.pos ≡ err unexpected_end
          → more ≡ []
          → decode_size (pre ++ (r.bytes ++ more)) (length pre + r.pos) ≡ err unexpected_end
      stays e f = rw (f, append-nil) (decode_size-append_length_end pre r.bytes r.pos e)

pub Local-size : Local size
Local-size = record { at = λ pre more r _. Carried-size pre more r }
