-- ===== src/Authority/ScopeExamples.antt =====
-- Delegated scopes and actor keys at concrete values.
use trustid.Base.{◌≡◌, refl, some, [], ◌∷◌}
use trustid.Base.JsMap
use trustid.Base.Json.{num}
use trustid.Base.Number.{nat}
use trustid.Base.Text.{trim}
use trustid.Authority.Types.{at, app, actor_key, parse_actor_key}
use trustid.Authority.Policy.Delegation.{Scope}
use trustid.Authority.Actors.{parse-actor_key}

abbrev parent_scope : Scope
parent_scope = record {
  actions = "read" ∷ "write" ∷ [];
  resources = "channel" ∷ [];
  valid_until = at 2000;
  limits = ("maxPosts", num (nat 5)) ∷ [];
  audience = "tv";
  owner_id = "ada";
}

abbrev child_scope : Scope
child_scope = record parent_scope {
  actions = "read" ∷ [];
  limits = ("maxPosts", num (nat 3)) ∷ [];
  valid_until = at 1500;
}

show_is_trimmed : trim "show" ≡ "show"
unfolding trim
show_is_trimmed = refl

parse-actor_key_example :
    parse_actor_key (actor_key app "show") ≡ some (record { type = app; id = "show" })
parse-actor_key_example = parse-actor_key (record { type = app; id = "show" }) show_is_trimmed refl
