-- ===== src/Service/Request.antt =====
-- The request and the errors of internal/service/service.go.
use anilibria_torznab.Prelude.{ℕ, Bool, Option}
use anilibria_torznab.Text.{Bytes}
use anilibria_torznab.Torznab.Category.{CategoryFilter}
use anilibria_torznab.Torznab.Parameter.{Parameter}

pub record Request : Type 0 where
  pub query : Bytes
  pub query_provided : Bool
  pub tv_search : Bool
  pub explicit_season : Option Bytes
  pub explicit_episode : Option Bytes
  pub categories : CategoryFilter
  pub limit : ℕ
  pub offset : ℕ

-- `Error`, by its kind
pub data Error : Type 0 where
  incorrect_parameter : Parameter → Error
  upstream : Error

pub data Result {ℓ} (A : Type ℓ) : Type ℓ where
  ok : A → Result A
  err : Error → Result A
