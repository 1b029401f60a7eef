-- ===== src/Herd/Lru.antt =====
-- What HerdCache promises: a list of distinct keys from the least to the most recently used, cut to
-- the newest before a slot is given out.
use guanaco.Base.{ℕ, ◌-◌, Bool, true, false, ◌||◌, List, [], ◌∷◌, ◌++◌, length, drop, if◌then◌else◌}
use guanaco.Herd.{ExpertKey, key_eq}

pub record Lru : Type 0 where
  pub max : ℕ
  pub order : List ExpertKey

pub data Op : Type 0 where
  allocates gets tests pins unpins : ExpertKey → Op
  limits : ℕ → Op

unfoldable pub contains : ExpertKey → List ExpertKey → Bool
unfolding key_eq
contains key [] = false
contains key (k ∷ ks) = key_eq k key || contains key ks

unfoldable pub without : ExpertKey → List ExpertKey → List ExpertKey
unfolding key_eq
without key [] = []
without key (k ∷ ks) = let rest = without key ks in if key_eq k key then rest else k ∷ rest

-- The last n.
unfoldable pub newest : ℕ → List ExpertKey → List ExpertKey
newest n ks = drop (length ks - n) ks

unfoldable pub touch : ExpertKey → List ExpertKey → List ExpertKey
unfolding without
touch key ks = without key ks ++ key ∷ []

unfoldable pub allocate : ExpertKey → Lru → Lru
unfolding touch newest
allocate key l = record l { order = touch key (newest (l.max - 1) l.order) }

unfoldable pub use_key : ExpertKey → Lru → Lru
unfolding touch
use_key key l = record l { order = touch key l.order }

-- The state after an operation, and its answer.
unfoldable pub spec_step : Lru → Op → Lru × Bool
unfolding allocate use_key contains without
spec_step l (allocates key) = (allocate key l, true)
spec_step l (gets key) = (if contains key l.order then use_key key l else l, contains key l.order)
spec_step l (tests key) = (l, contains key l.order)
spec_step l (pins key) = (if contains key l.order then use_key key l else allocate key l, true)
spec_step l (unpins key) = (record l { order = without key l.order }, true)
spec_step l (limits n) = (record l { max = n }, true)

unfoldable pub spec_run : Lru → List Op → List Bool
unfolding spec_step
spec_run l [] = []
spec_run l (op ∷ ops) = let (l', answer) = spec_step l op in answer ∷ spec_run l' ops
