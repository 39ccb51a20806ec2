-- ===== src/Evaluator/FrameStore.antt =====
-- rex-engine/src/stack.rs, `FrameStore`: one evaluation's control frames, by identifiers that a
-- counter hands out. The `BTreeMap` is a list of entries in ascending order of the identifiers.
pub mod Laws
pub mod Fresh
use rex.Prelude.{
  ℕ, ◌+◌, ◌-◌, List, [], ◌∷◌, Bool, true, false, if◌then◌else◌, ltb, ◌==◌, Option, none, some,
}
use Prim.Native.Nat.{◌^◌}

abbrev pub FrameId : Type 0
FrameId = ℕ

-- A panic, or the errors of the operations: `EngineError::Internal` naming the frame, or what a
-- function that is given returns.
pub data Failure (E : Type 0) : Type 0 where
  panic : Failure E
  unknown_frame : FrameId → Failure E
  raised : E → Failure E

pub data Result (E A : Type 0) : Type 0 where
  ok : A → Result E A
  err : Failure E → Result E A

infixl 1 ◌>>=◌
abbrev pub ◌>>=◌ : {E A B : Type 0} → Result E A → (A → Result E B) → Result E B
ok a >>= f = f a
err e >>= f = err e

-- `usize::MAX` on a 64-bit target.
unfoldable pub usize_max : ℕ
usize_max = 2 ^ 64 - 1

pub record FrameStore (F : Type 0) : Type 0 where
  pub next_id : FrameId
  pub frames : List (FrameId × F)

module _ {F : Type 0} where
  unfoldable pub lookup : FrameId → List (FrameId × F) → Option F
  lookup id [] = none
  lookup id ((j, frame) ∷ frames) = if j == id then some frame else lookup id frames

  -- `BTreeMap::insert`
  unfoldable pub put : FrameId → F → List (FrameId × F) → List (FrameId × F)
  put id frame [] = (id, frame) ∷ []
  put id frame ((j, old) ∷ frames) =
      if ltb id j
      then (id, frame) ∷ (j, old) ∷ frames
      else if j == id
      then (id, frame) ∷ frames
      else (j, old) ∷ put id frame frames

  -- `BTreeMap::remove`
  unfoldable pub drop_key : FrameId → List (FrameId × F) → List (FrameId × F)
  drop_key id [] = []
  drop_key id ((j, frame) ∷ frames) = if j == id then frames else (j, frame) ∷ drop_key id frames

  found : {E : Type 0} → FrameId → Option F → Result E F
  found id (some frame) = ok frame
  found id none = err (unknown_frame id)

  unfoldable pub empty : FrameStore F
  empty = record { next_id = 0; frames = [] }

  unfoldable pub insert : {E : Type 0} → F → FrameStore F → Result E (FrameStore F × FrameId)
  unfolding usize_max put
  insert frame s =
      if s.next_id == usize_max
      then err panic
      else ok (record { next_id = s.next_id + 1; frames = put s.next_id frame s.frames }, s.next_id)

  unfoldable pub get : {E : Type 0} → FrameId → FrameStore F → Result E F
  unfolding found lookup
  get id s = found id (lookup id s.frames)

  unfoldable pub replace : {E : Type 0} → FrameId → F → FrameStore F → Result E (FrameStore F)
  unfolding found lookup put
  replace id frame s = do
    slot ← found id (lookup id s.frames)
    ok (record s { frames = put id frame s.frames })

  unfoldable pub remove : {E : Type 0} → FrameId → FrameStore F → Result E (FrameStore F × F)
  unfolding found lookup drop_key
  remove id s = do
    frame ← found id (lookup id s.frames)
    ok (record s { frames = drop_key id s.frames }, frame)

module _ {F G E : Type 0} where
  -- `collect` of a `Result` stops at the first error.
  map_entries : (F → Result E G) → List (FrameId × F) → Result E (List (FrameId × G))
  map_entries f [] = ok []
  map_entries f ((id, frame) ∷ frames) = do
    g ← f frame
    rest ← map_entries f frames
    ok ((id, g) ∷ rest)

  unfoldable pub map_frames : (F → Result E G) → FrameStore F → Result E (FrameStore G)
  unfolding map_entries
  map_frames f s = do
    frames ← map_entries f s.frames
    ok (record { next_id = s.next_id; frames = frames })
