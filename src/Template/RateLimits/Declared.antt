-- ===== src/Template/RateLimits/Declared.antt =====
-- Every zone that the limits of a location name is declared.
use ingress_nginx.Prelude.{true, false, List, String, ◌≡◌, ◌⊎◌, string_eq}
use ingress_nginx.Annotations.RateLimit
use ingress_nginx.Maps.{contains}
use ingress_nginx.StringSets.{StringSets}
use ingress_nginx.Types.Location.{Location}
use ingress_nginx.Template.RateLimits.{positive, conn_zone, req_zone}

-- The limits of a location that are set have their zones among the lines `zones`.
pub record HasZones (zones : List String) (l : Location) : Type 0 where
  pub connections :
      (positive l.rate_limit.connections.limit ≡ false)
      ⊎ (contains zones (conn_zone l.rate_limit) ≡ true)
  pub rpm :
      (positive l.rate_limit.rpm.limit ≡ false)
      ⊎ (contains zones (req_zone "m" l.rate_limit l.rate_limit.rpm) ≡ true)
  pub rps :
      (positive l.rate_limit.rps.limit ≡ false)
      ⊎ (contains zones (req_zone "s" l.rate_limit l.rate_limit.rps) ≡ true)

module _ (S : StringSets) where
  open S use {Set, empty, insert, has, list, has-insert, contains-list}

  -- No line of `z` is missing in `w`.
  abbrev Within : Set → Set → Type 0
  Within z w = (x : String) → has z x ≡ true → has w x ≡ true
