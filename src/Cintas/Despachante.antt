-- ===== src/Cintas/Despachante.antt =====
-- A user of the central belt: the belt's part of class `ApiDespachante` of api/api_despachante.cpp.
-- `saco_elemento` says that he has no piece in his hands.
pub mod Manos
mod Tests
use aeropuerto.Base.{ℕ, Bool, true, false, Option, none, some, if◌then◌else◌}
use aeropuerto.Cintas.Principal
use aeropuerto.Cintas.Principal.{CintaPrincipal}

pub record Despachante {ℓ} (T : Type ℓ) : Type ℓ where
  pub numero_despachante : ℕ
  pub saco_elemento : Bool
  pub ultimo_equipaje_leido : T

module _ {ℓ} {T : Type ℓ} where
  -- It is the first part of `leer_proximo_equipaje` too.
  unfoldable pub avanzar_cinta : Despachante T → CintaPrincipal T → Despachante T × CintaPrincipal T
  avanzar_cinta d c =
      if d.saco_elemento
      then (d, c)
      else (record d { saco_elemento = true }, Principal.avanzar_cinta d.numero_despachante c)

  -- What follows a pass of `leer_elemento`: a piece that was read is noted.
  abbrev pub anotar_leido : Despachante T → Option T → Despachante T
  anotar_leido d none = d
  anotar_leido d (some x) = record d { ultimo_equipaje_leido = x; saco_elemento = false }

  abbrev pub tras_pasada :
      Despachante T
      → Option (CintaPrincipal T × Option T)
      → Option (Despachante T × CintaPrincipal T)
  tras_pasada d none = none
  tras_pasada d (some (c, elemento)) = some (anotar_leido d elemento, c)

  -- One pass of the loop in the second part of `leer_proximo_equipaje`.
  unfoldable pub leer_proximo_equipaje :
      (nulo : T) → Despachante T → CintaPrincipal T → Option (Despachante T × CintaPrincipal T)
  leer_proximo_equipaje nulo d c =
      tras_pasada d (Principal.leer_elemento nulo d.numero_despachante c)

  unfoldable pub extraer_equipaje :
      Despachante T → CintaPrincipal T → (Despachante T × CintaPrincipal T) × T
  extraer_equipaje d c =
      ((record d { saco_elemento = true }, Principal.extraer_elemento c), d.ultimo_equipaje_leido)
