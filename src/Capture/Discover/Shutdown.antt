-- ===== src/Capture/Discover/Shutdown.antt =====
-- The rows that `node_shutdown` saves one by one.
use ava_capture.Base.{ℕ, ◌≡◌, List, [], ◌∷◌}
use ava_capture.Base.Table.{save}
use ava_capture.Site.{Site}

module _ {A : Type 0} (key : A → ℕ) (f : A → A) (same_key : (a : A) → key (f a) ≡ key a) where
  -- The changed rows, saved one after the other.
  unfoldable save_each : List A → List A → List A
  save_each [] xs = xs
  save_each (a ∷ changed) xs = save_each changed (save key (f a) xs)
