-- ===== src/Cintas/Carga.antt =====
-- The belt of a container: class `CintaCarga` of api/cintacarga.h. To the belt of api/cinta.h, whose
-- loops it repeats with a consumer's number, it adds the notice that the check-in has closed.
-- `ya_me_desperto_el_cierre_de_checkin` is no shared memory: it is the flag of the object through
-- which the one consumer, the loading robot, uses the belt.
pub mod Invariante
pub mod Cierre
pub mod Recorrido
mod Tests
use aeropuerto.Base.{
  ℕ, ◌-◌, Bool, true, false, not, ◌&&◌, ◌||◌, Option, none, some, ◌==◌, if◌then◌else◌,
}
use aeropuerto.Cintas.Lado.{esperar_turno, dar_turno}
use aeropuerto.Cintas.Checkin
use aeropuerto.Cintas.Checkin.{Cinta}

pub record CintaCarga {ℓ} (T : Type ℓ) : Type ℓ where
  pub cinta : Cinta T
  pub checkin_cerrado : ℕ
  pub numero_de_valijas_totales : ℕ
  pub ya_me_desperto : Bool

module _ {ℓ} {T : Type ℓ} where
  pub despertar_consumidores : CintaCarga T → CintaCarga T
  despertar_consumidores k = record k { cinta = Checkin.despertar_consumidores k.cinta }

  -- One pass of the loop of `poner_equipaje`.
  pub poner_equipaje : T → (id_productor : ℕ) → CintaCarga T → Option (CintaCarga T × Bool)
  poner_equipaje elemento id_productor k =
      elim (Checkin.poner_equipaje elemento id_productor k.cinta) [
        | none ↦ none
        | some (cinta, coloque) ↦ some (record k { cinta = cinta }, coloque)
      ]

  pub comenzar_nueva_carga : CintaCarga T → CintaCarga T
  comenzar_nueva_carga k = record k {
    numero_de_valijas_totales = 0;
    checkin_cerrado = 0;
    ya_me_desperto = false;
  }

  pub checkin_ya_cerro : CintaCarga T → Bool
  checkin_ya_cerro k = k.ya_me_desperto

  -- `none` is the answer -1.
  pub cantidad_valijas_totales : CintaCarga T → Option ℕ
  cantidad_valijas_totales k = if k.ya_me_desperto then some k.numero_de_valijas_totales else none

  pub avisar_cierre_de_checkin : ℕ → CintaCarga T → CintaCarga T
  avisar_cierre_de_checkin cantidad_de_valijas k =
      despertar_consumidores
        (record k { numero_de_valijas_totales = cantidad_de_valijas; checkin_cerrado = 1 })

  module _ (nulo : T) where
    -- What consumer `i` does under the lock. The default piece `nulo` tells him of the closing.
    pub sacar_con_lock : ℕ → CintaCarga T → CintaCarga T × Option T
    sacar_con_lock i k =
        if k.ya_me_desperto || k.checkin_cerrado == 0
        then (
          record k { cinta = (Checkin.sacar_con_lock nulo i k.cinta).0 },
          (Checkin.sacar_con_lock nulo i k.cinta).1,
        )
        else if not k.ya_me_desperto && k.checkin_cerrado == 1
        then (
          record k {
            cinta = record (k.cinta) { consumidores = dar_turno i k.cinta.consumidores };
            ya_me_desperto = true;
          },
          some nulo,
        )
        else (k, none)

    -- One pass of the loop of `sacar_equipaje`.
    pub sacar_equipaje : (id_consumidor : ℕ) → CintaCarga T → Option (CintaCarga T × Option T)
    sacar_equipaje id_consumidor k = elim (esperar_turno (id_consumidor - 1) k.cinta.consumidores) [
      | none ↦ none
      | some turno ↦ some (
          sacar_con_lock (id_consumidor - 1)
            (record k { cinta = record (k.cinta) { consumidores = turno } }))
    ]
