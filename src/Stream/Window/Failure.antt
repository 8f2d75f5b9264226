-- ===== src/Stream/Window/Failure.antt =====
-- The window of src/stream.rs after framing has failed.
use structio.Prelude.{ℕ, ◌≡◌, refl, sym, true, false, Bool-cases, inl, inr, List, []}
use mathlib.Core.Path.{subst}
use structio.Error.{ErrorCode}
use structio.Stream.{end, Framer}
use structio.Stream.Window.{
  Window, Answer, located, refused, lost, buffered, into_unread, extend, locate, settle, try_next,
}

module _ {f : Framer} where
  -- A refusal has marked the window.
  Marks : Answer × Window f → Type 0
  Marks (located split, v) = Unit
  Marks (refused code at, v) = v.failed ≡ true
  Marks (lost, v) = Unit

  Marks-settle : (x : Answer × Window f) → Marks (settle x)
  unfolding Marks settle
  Marks-settle (located split, v) = tt
  Marks-settle (refused code at, v) = refl
  Marks-settle (lost, v) = tt

  going : (w : Window f) → w.failed ≡ false → try_next w ≡ settle (locate w)
  unfolding try_next
  going w e = simp (try_next, e)

  ended : (w : Window f) → w.failed ≡ true → try_next w ≡ (located end, w)
  unfolding try_next
  ended w e = simp (try_next, e)

  unfilled : (bytes : List ℕ) (v : Window f) → v.failed ≡ true → extend bytes v ≡ v
  unfolding extend
  unfilled bytes v t = simp (extend, t)

  Marks-try_next : (w : Window f) → Marks (try_next w)
  unfolding try_next
  Marks-try_next w = elim (Bool-cases w.failed) [
    | inl e ↦ subst Marks (sym (ended w e)) (unfold Marks in tt)
    | inr e ↦ subst Marks (sym (going w e)) (Marks-settle (locate w))
  ]

  -- Once `try_next` has reported a failure, adding bytes changes nothing, the next `try_next`
  -- answers the end of the stream, and nothing is buffered or left unread.
  pub try_next-refused :
      (w v : Window f) (code : ErrorCode) (at : ℕ) (bytes : List ℕ)
      → try_next w ≡ (refused code at, v)
      → (try_next (extend bytes v) ≡ (located end, v))
        × (buffered (extend bytes v) ≡ 0)
        × (into_unread (extend bytes v) ≡ [])
  unfolding Marks
  try_next-refused w v code at bytes e =
      subst
        (λ (u : Window f).
          (try_next u ≡ (located end, v)) × (buffered u ≡ 0) × (into_unread u ≡ []))
        (sym (unfilled bytes v marked))
        (ended v marked, unfold buffered in simp marked, unfold into_unread in simp marked)
    where
      marked : v.failed ≡ true
      marked = subst Marks e (Marks-try_next w)
