-- ===== src/Beve/Split/Frames.antt =====
-- The frames that `head` of src/beve/stream/split.rs opens, and the soundness of a stack of them.
use structio.Prelude.{
  ℕ, ◌+◌, ◌≤◌, ◌≡◌, refl, arith, Bool, true, false, ◌||◌, if◌then◌else◌, Option, none, some, List,
  [], ◌∷◌, inl, inr, ◌==◌, Option-cases, Bool-cases, div_ceil8, drop, ltb,
}
use structio.Error.{ErrorCode, PResult, ok, err, stuck}
use structio.Beve.Walk.{Reader, Walk, new, pure, raise, lift, ◌>>=◌, ◌>>◌, continue}
use structio.Beve.Header.{sub, cat_float, byte_width, count as width_count}
use structio.Beve.Header.Fields.{byte_width-bounds}
use structio.Beve.Reader
use structio.Beve.Reader.{count, Typed, bools, strings, fixed, key_width, payload_len}
use structio.Beve.Split.{
  Frame, object, values, texts, done, Scanner, take_frame, take_stack, taken, pop_done, push,
  charge, form_extent, extension_preamble, preamble, preamble_walk, located, head, start_value,
}
use mathlib.Core.Path.{subst}

-- An object's frame is sound if its keys are strings or have a width of a byte at least.
abbrev pub SoundFrame : Frame → Type 0
SoundFrame (object cat width left k) = (cat == cat_float || ltb 0 width) ≡ true
SoundFrame (values left) = Unit
SoundFrame (texts left) = Unit

abbrev pub SoundFrames : List Frame → Type 0
SoundFrames [] = Unit
SoundFrames (f ∷ fs) = SoundFrame f × SoundFrames fs

abbrev pub SoundOpened : Option Frame → Type 0
SoundOpened none = Unit
SoundOpened (some f) = SoundFrame f

abbrev SoundAnswer : PResult (ℕ × Option Frame) → Type 0
SoundAnswer (ok (n, f)) = SoundOpened f
SoundAnswer (err e) = Unit
SoundAnswer stuck = Unit

record Opens (m : Walk (ℕ × Option Frame)) : Type 0 where
  at : (r : Reader) → SoundAnswer (m r).0

Opens-pure : (n : ℕ) (f : Option Frame) → SoundOpened f → Opens (pure (n, f))
unfolding pure
Opens-pure n f h = record { at = λ r. h }

Opens-none : (n : ℕ) → Opens (pure (n, none))
Opens-none n = Opens-pure n none tt

Opens-values : (n left : ℕ) → Opens (pure (n, some (values left)))
Opens-values n left = Opens-pure n (some (values left)) tt

Opens-raise : (e : ErrorCode) → Opens (raise e)
unfolding raise
Opens-raise e = record { at = λ r. tt }

Opens-if :
    (b : Bool) (m n : Walk (ℕ × Option Frame)) → Opens m → Opens n → Opens (if b then m else n)
Opens-if true m n a b = a
Opens-if false m n a b = b

module _ {ℓ} {A : Type ℓ} where
  opens_step :
      (p : PResult A × Reader) (f : A → Walk (ℕ × Option Frame))
      → ((a : A) → p.0 ≡ ok a → Opens (f a))
      → SoundAnswer (continue p.0 f p.1).0
  opens_step (ok a, s) f h = (h a refl).at s
  opens_step (err e, s) f h = tt
  opens_step (stuck, s) f h = tt

  Opens-bind :
      (m : Walk A) (f : A → Walk (ℕ × Option Frame)) → ((a : A) → Opens (f a)) → Opens (m >>= f)
  unfolding ◌>>=◌
  Opens-bind m f h = record { at = λ r. opens_step (m r) f (λ a e. h a) }

  Opens-lift :
      (x : PResult A) (f : A → Walk (ℕ × Option Frame))
      → ((a : A) → x ≡ ok a → Opens (f a))
      → Opens (lift x >>= f)
  unfolding ◌>>=◌ lift
  Opens-lift x f h = record { at = λ r. opens_step (x, r) f h }

Opens-final : (x : PResult (ℕ × Option Frame)) → SoundAnswer x → Opens (lift x)
unfolding lift
Opens-final x h = record { at = λ r. h }

sound_total :
    (x : PResult ℕ)
    → SoundAnswer (elim x [ ok total ↦ ok (total, none) | err e ↦ err e | stuck ↦ stuck ])
sound_total (ok n) = tt
sound_total (err e) = tt
sound_total stuck = tt

Opens-form_extent : (form : Typed) → Opens (lift (form_extent form))
unfolding form_extent lift pure
Opens-form_extent (bools n) = Opens-none (div_ceil8 n)
Opens-form_extent (strings n) = Opens-final (ok (0, some (texts n))) tt
Opens-form_extent (fixed h n) = Opens-final _ (sound_total (payload_len h n))

ruleset opening = (Opens-none, Opens-values, Opens-raise, Opens-if, Opens-bind, Opens-form_extent)

Opens-extension_preamble : (h depth : ℕ) → Opens (extension_preamble h depth)
unfolding extension_preamble
Opens-extension_preamble h depth = search opening depth 12

pub sound_width :
    (cat width : ℕ)
    → (cat == cat_float || ltb 0 width) ≡ true
    → (cat == cat_float) ≡ false
    → 1 ≤ width
sound_width cat width h e = ground arith

key_width-bounds :
    (h width : ℕ) → key_width h ≡ ok width → (sub h == cat_float || ltb 0 width) ≡ true
unfolding key_width
key_width-bounds h width e = elim (Option-cases (byte_width (sub h) (width_count h))) [
  | inl n ↦ ground arith
  | inr (w, n) ↦ ground (arith, byte_width-bounds (sub h) (width_count h) w n)
]

Opens-object :
    (h depth left : ℕ) (width : ℕ)
    → key_width h ≡ ok width
    → Opens (pure (0, some (object (sub h) width left true)))
Opens-object h depth left width e =
    Opens-pure 0 (some (object (sub h) width left true)) (key_width-bounds h width e)

Opens-object_head :
    (h depth : ℕ)
    → Opens (do
      width ← lift (key_width h)
      left ← count
      lift (charge depth)
      pure (0, some (object (sub h) width left true)))
Opens-object_head h depth = Opens-lift (key_width h) _ (λ width e.
    Opens-bind count _
      (λ left. Opens-bind (lift (charge depth)) _ (λ u. Opens-object h depth left width e)))

Opens-preamble : (depth h : ℕ) → Opens (preamble depth h)
unfolding preamble
Opens-preamble depth h = search (opening, Opens-object_head, Opens-extension_preamble) depth 14

Opens-preamble_walk : (depth : ℕ) → Opens (preamble_walk depth)
unfolding preamble_walk
Opens-preamble_walk depth = Opens-bind Reader.head (preamble depth) (Opens-preamble depth)

located_sound :
    (p : PResult (ℕ × Option Frame) × Reader) (used skip : ℕ) (frame : Option Frame)
    → SoundAnswer p.0
    → located p ≡ ok (used, skip, frame)
    → SoundOpened frame
unfolding located
located_sound (ok (k, f), s) used skip frame h e = subst SoundOpened (ground arith) h
located_sound (err c, s) used skip frame h e = cc
located_sound (stuck, s) used skip frame h e = cc

-- What a preamble opens is sound.
pub head-opens :
    (buf : List ℕ) (at depth used skip : ℕ) (frame : Option Frame)
    → head buf at depth ≡ ok (used, skip, frame)
    → SoundOpened frame
unfolding head
head-opens buf at depth used skip frame e =
    located_sound (preamble_walk depth (new (drop at buf))) used skip frame
      ((Opens-preamble_walk depth).at (new (drop at buf))) e

sound_take :
    (started : Bool) (fs : List Frame) → SoundFrames fs → SoundFrames (take_stack started fs).1
unfolding take_stack take_frame
sound_take started [] h = tt
sound_take started (object cat width left true ∷ fs) h = h
sound_take started (object cat width left false ∷ fs) h = h
sound_take started (values left ∷ fs) h = h
sound_take started (texts left ∷ fs) h = h

-- Taking a duty, pushing what a preamble opened and popping the exhausted frames keep the stack
-- sound.
pub sound_taken : (s : Scanner) → SoundFrames s.stack → SoundFrames (taken s).stack
unfolding taken
sound_taken s h = sound_take s.started s.stack h

sound_push :
    (frame : Option Frame) (fs : List Frame)
    → SoundOpened frame
    → SoundFrames fs
    → SoundFrames (push frame fs)
unfolding push
sound_push none fs h k = k
sound_push (some f) fs h k = (h, k)

pub sound_start :
    (used skip : ℕ) (frame : Option Frame) (s : Scanner)
    → SoundOpened frame
    → SoundFrames s.stack
    → SoundFrames (start_value used skip frame s).stack
unfolding start_value
sound_start used skip frame s h k =
    sound_push frame _ h (sound_taken (record s { pos = s.pos + used; pending = skip }) k)

pub sound_pop : (fs : List Frame) → SoundFrames fs → SoundFrames (pop_done fs)
unfolding pop_done
sound_pop [] h = tt
sound_pop (f ∷ fs) (h, k) = elim (Bool-cases (done f)) [
  | inl e ↦ rw e (sound_pop fs k)
  | inr e ↦ rw e (h, k)
]
