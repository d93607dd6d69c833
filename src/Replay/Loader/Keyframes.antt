-- ===== src/Replay/Loader/Keyframes.antt =====
-- The chunk that a seek starts from (dashboard/src/pages/Replay/hooks/useReplay.ts, jumpTo and
-- onPlaybackTime).
use trace_ux.Base.{
  ℕ, ◌≤◌, ◌<◌, ◌≡◌, refl, Bool, ◌&&◌, Option, none, some, List, [], ◌∷◌, leb, arith, All,
  Bool-cases, inl, inr, filter,
}
use trace_ux.Replay.{Chunk, keyframe_from, keyframe}

-- A chunk that playback at a position can start from.
abbrev pub usable : ℕ → Chunk → Bool
usable offset c = c.snapshot && leb c.first_ts offset

unfoldable pub last_or {ℓ} : {A : Type ℓ} → Option A → List A → Option A
last_or d [] = d
last_or d (x ∷ xs) = last_or (some x) xs

-- The index is in the order of time.
abbrev pub InOrder : List Chunk → Type 0
InOrder [] = Unit
InOrder (c ∷ cs) = All (λ d. c.first_ts ≤ d.first_ts) cs × InOrder cs

too_late :
    (offset t : ℕ) (cs : List Chunk)
    → offset < t
    → All (λ d. t ≤ d.first_ts) cs
    → filter (usable offset) cs ≡ []
unfolding filter
too_late offset t [] l h = refl
too_late offset t (c ∷ cs) l h = ground (arith, too_late offset t cs l h.1)

keyframe_from-last :
    (target : Option Chunk) (offset : ℕ) (cs : List Chunk)
    → InOrder cs
    → keyframe_from target offset cs ≡ last_or target (filter (usable offset) cs)
unfolding keyframe_from filter last_or
keyframe_from-last target offset [] h = refl
keyframe_from-last target offset (c ∷ cs) h = elim (Bool-cases c.snapshot) [
  | inl s ↦ elim (Bool-cases (leb c.first_ts offset)) [
    | inl e ↦ ground (arith, s, e, keyframe_from-last (some c) offset cs h.1)
    | inr e ↦ ground (arith, s, e, too_late offset c.first_ts cs (ground (arith, e)) h.0)
  ]
  | inr s ↦ ground (arith, s, keyframe_from-last target offset cs h.1)
]

-- In an index in the order of time, the search that breaks off early finds the last chunk of all
-- those that have a snapshot and begin at or before the position, and none where there is none.
pub keyframe-last :
    (offset : ℕ) (index : List Chunk)
    → InOrder index
    → keyframe offset index ≡ last_or none (filter (usable offset) index)
unfolding keyframe
keyframe-last offset index h = keyframe_from-last none offset index h
