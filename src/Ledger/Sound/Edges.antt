-- ===== src/Ledger/Sound/Edges.antt =====
-- The invariant's classes of states along the edges of image_processor/ledger/schema.py.
use image_processor.Base.{◌≡◌, ◌⊎◌, inl, inr, true, false, some, arith}
use image_processor.Types.{JobState, is_terminal, published}
use image_processor.Ledger.Schema.{is_legal}
use image_processor.Ledger.Jobs.Moves.{is_refused}
use image_processor.Ledger.Sound.{is_past, is_early, is_cleaning}

refused_cases : (a b : JobState) → is_refused a b ≡ false → (a ≡ b) ⊎ (is_legal a b ≡ true)
refused_cases a b h = ground arith

legal_ends : (a b : JobState) → is_legal a b ≡ true → is_terminal a ≡ false
unfolding is_legal is_terminal
legal_ends a b h = ground arith

-- No edge leaves a terminal state.
pub edge_ends :
    (a b : JobState) → is_refused a b ≡ false → is_terminal a ≡ true → is_terminal b ≡ true
edge_ends a b h t = ground (arith, refused_cases a b h, legal_ends a b)

legal_cleans :
    (a b : JobState)
    → is_legal a b ≡ true
    → is_cleaning (some a) ≡ true
    → is_cleaning (some b) ≡ true
unfolding is_legal is_cleaning
legal_cleans a b h t = ground arith

pub edge_cleans :
    (a b : JobState)
    → is_refused a b ≡ false
    → is_cleaning (some a) ≡ true
    → is_cleaning (some b) ≡ true
edge_cleans a b h t = ground (arith, refused_cases a b h, legal_cleans a b)

legal_early :
    (a b : JobState) → is_legal a b ≡ true → is_early (some b) ≡ true → is_early (some a) ≡ true
unfolding is_legal is_early
legal_early a b h t = ground arith

pub edge_early :
    (a b : JobState) → is_refused a b ≡ false → is_early (some b) ≡ true → is_early (some a) ≡ true
edge_early a b h t = ground (arith, refused_cases a b h, legal_early a b)

legal_past :
    (a b : JobState)
    → is_legal a b ≡ true
    → is_past (some b) ≡ true
    → (is_past (some a) ≡ true) ⊎ (b ≡ published)
unfolding is_legal is_past
legal_past a b h t = ground arith

-- The only edge into the confirmed states is the one to PUBLISHED.
pub edge_past :
    (a b : JobState)
    → is_refused a b ≡ false
    → is_past (some b) ≡ true
    → (is_past (some a) ≡ true) ⊎ (b ≡ published)
edge_past a b h t = elim (refused_cases a b h) [
  | inl e ↦ inl (ground arith)
  | inr e ↦ legal_past a b e t
]
