-- ===== src/Issuance.antt =====
-- apps/api/src/modules/trust-bridge/digi-assertion.ts: the limit on how often a user may ask for an
-- assertion. The readings of the clock are inputs of the calls.
pub mod Window
pub mod Mint
mod Examples
use trustid.Base.{
  ℕ, ◌-◌, Bool, Option, none, some, List, [], ◌∷◌, ◌++◌, String, ltb, leb, length, filter, get_or,
  if◌then◌else◌,
}
use trustid.Base.JsMap
use trustid.Base.JsMap.{JsMap}

abbrev pub issue_window_ms : ℕ
issue_window_ms = 60000

abbrev pub issue_max_per_window : ℕ
issue_max_per_window = 10

-- `issueHits`
abbrev pub Hits : Type 0
Hits = JsMap (List ℕ)

-- `now - t < ISSUE_WINDOW_MS`: a difference below zero is below the window, as zero is.
abbrev pub is_recent : ℕ → ℕ → Bool
is_recent now t = ltb (now - t) issue_window_ms

abbrev pub hits_of : Hits → String → List ℕ
hits_of hits user_id = get_or (JsMap.get hits user_id) []

-- The hits after an accepted call; none where it throws.
unfoldable pub assert_issuance_rate_limit : String → ℕ → Hits → Option Hits
assert_issuance_rate_limit user_id now hits =
    let prev = filter (is_recent now) (hits_of hits user_id) in
    if leb issue_max_per_window (length prev)
    then none
    else some (JsMap.set hits user_id (prev ++ (now ∷ [])))
