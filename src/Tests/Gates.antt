-- ===== src/Tests/Gates.antt =====
-- A token with a role at its top level, and a client that makes three requests.
use civicbrain_v.Base.{[], ◌∷◌, some, none, true, false, ◌≡◌, refl}
use civicbrain_v.Text.{codes}
use civicbrain_v.Access.Claims.{Section, Payload, ParseUuid, CurrentUserClaims}
use civicbrain_v.Access.RateLimit.{RateLimiter, admits}
use civicbrain_v.Access.RateLimit.Window.{admits-up_to}

-- Every text is the UUID of user 5.
abbrev parse : ParseUuid
parse s = some 5

abbrev bare : Section
bare = record { org_id = none; role = none; ward_id = none }

abbrev token : Payload
token = record {
  sub = some (codes "5");
  top = record bare { role = some (codes "authenticated") };
  app_metadata = record bare { role = some (codes "admin") };
  user_metadata = bare;
}

abbrev claims : CurrentUserClaims
claims = record { user_id = 5; org_id = none; role = none; ward_id = none }

abbrev limiter : RateLimiter
limiter = record { max_requests = 2; window_seconds = 60; prefix = codes "admin_import" }

admits-up_to_example :
    (admits limiter (codes "ip") (100 ∷ 110 ∷ 120 ∷ []) []).0 ≡ true ∷ true ∷ false ∷ []
admits-up_to_example = admits-up_to limiter (codes "ip") 100 (110 ∷ 120 ∷ []) [] refl refl
