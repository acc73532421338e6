-- ===== src/Mostrador.antt =====
-- A counter of the check-in: class `ApiCheckIn` of api/api_checkin.cpp, with the process that serves
-- the passengers, processes/puesto_checkin.cpp, and the one that opens and closes the flights,
-- processes/controlador_puesto_checkin.cpp.
pub mod Cuenta
mod Tests
use aeropuerto.Base.{
  ℕ, ◌+◌, ◌-◌, ◌≡◌, List, [], ◌∷◌, ◌++◌, Bool, true, false, Option, none, some, if◌then◌else◌, ◌==◌,
}
use aeropuerto.Contenedor.{Equipaje}

-- `tVueloEnCheckin` and the count of `mutex_checkin`. A `num_vuelo` of -1 is `none`.
pub record Puesto : Type 0 where
  pub num_vuelo : Option ℕ
  pub cant_equipajes : ℕ
  pub mutex : ℕ

unfoldable pub lock : Puesto → Option Puesto
lock p = if p.mutex == 0 then none else some (record p { mutex = p.mutex - 1 })

unfoldable pub unlock : Puesto → Puesto
unlock p = record p { mutex = p.mutex + 1 }

abbrev pub abrir : (numero_vuelo : ℕ) → Puesto → Puesto
abrir numero_vuelo p = elim p.num_vuelo [
  | none ↦ record p { num_vuelo = some numero_vuelo; cant_equipajes = 0 }
  | some n ↦ p
]

unfoldable pub iniciar_checkin : (numero_vuelo : ℕ) → Puesto → Option Puesto
iniciar_checkin numero_vuelo p = elim (lock p) [
  | none ↦ none
  | some p' ↦ some (unlock (abrir numero_vuelo p'))
]

abbrev pub cerrar : Puesto → Puesto × Option ℕ
cerrar p = elim p.num_vuelo [
  | none ↦ (p, none)
  | some n ↦ (record p { num_vuelo = none }, some p.cant_equipajes)
]

-- The number of pieces, or `none` where it throws.
unfoldable pub cerrar_checkin : Puesto → Option (Puesto × Option ℕ)
cerrar_checkin p = elim (lock p) [
  | none ↦ none
  | some p' ↦ let (q, equipajes_cargados) = cerrar p' in some (unlock q, equipajes_cargados)
]

unfoldable pub comienza_checkin_pasajero : Puesto → Option Puesto
comienza_checkin_pasajero = lock

unfoldable pub fin_checkin_pasajero : Puesto → Puesto
fin_checkin_pasajero = unlock

-- Up to the call of `poner_equipaje`; `none` where it throws.
unfoldable pub registrar_equipaje : Puesto → Option Puesto
registrar_equipaje p = elim p.num_vuelo [
  | none ↦ none
  | some vuelo ↦ some (record p { cant_equipajes = p.cant_equipajes + 1 })
]

-- `none` where it throws.
unfoldable pub get_vuelo_actual : Puesto → Option ℕ
get_vuelo_actual p = p.num_vuelo

-- Where the process that serves the passengers stands: it waits for one, or serves one of the flight,
-- who still has these pieces.
pub data Fase : Type 0 where
  libre : Fase
  atiende : (vuelo : ℕ) → List Equipaje → Fase

-- `cinta` has the pieces that were put on the belt.
pub record Sistema : Type 0 where
  pub puesto : Puesto
  pub fase : Fase
  pub cinta : List Equipaje

-- The pieces that it will register, with the lock taken.
unfoldable pub por_registrar : (vuelo : ℕ) → List Equipaje → Puesto → List Equipaje
por_registrar vuelo equipajes p = elim (get_vuelo_actual p) [
  | none ↦ []
  | some n ↦ if n == vuelo then equipajes else []
]

-- What can be seen of a step.
pub data Evento : Type 0 where
  nada : Evento
  inicia : (numero_vuelo : ℕ) → Evento
  cierra : (equipajes_cargados : ℕ) → Evento
  no_habia : Evento
  registra : (vuelo : ℕ) → Equipaje → Evento

-- The steps of both processes, in any order.
pub data Paso : Sistema → Evento → Sistema → Type 0 where
  llega :
      {s : Sistema} {p : Puesto} (vuelo : ℕ) (equipajes : List Equipaje)
      → s.fase ≡ libre
      → comienza_checkin_pasajero s.puesto ≡ some p
      → Paso s nada
          (record s { puesto = p; fase = atiende vuelo (por_registrar vuelo equipajes p) })
  coloca :
      {s : Sistema} {p : Puesto} (vuelo : ℕ) (e : Equipaje) (es : List Equipaje)
      → s.fase ≡ atiende vuelo (e ∷ es)
      → registrar_equipaje s.puesto ≡ some p
      → Paso s
          (registra vuelo e)
          (record s { puesto = p; fase = atiende vuelo es; cinta = s.cinta ++ e ∷ [] })
  sin_vuelo :
      {s : Sistema} (vuelo : ℕ) (e : Equipaje) (es : List Equipaje)
      → s.fase ≡ atiende vuelo (e ∷ es)
      → registrar_equipaje s.puesto ≡ none
      → Paso s nada (record s { fase = atiende vuelo [] })
  termina :
      {s : Sistema} (vuelo : ℕ)
      → s.fase ≡ atiende vuelo []
      → Paso s nada (record s { puesto = fin_checkin_pasajero s.puesto; fase = libre })
  abre :
      {s : Sistema} {p : Puesto} (numero_vuelo : ℕ)
      → iniciar_checkin numero_vuelo s.puesto ≡ some p
      → Paso s (inicia numero_vuelo) (record s { puesto = p })
  cierre :
      {s : Sistema} {p : Puesto} (k : ℕ)
      → cerrar_checkin s.puesto ≡ some (p, some k)
      → Paso s (cierra k) (record s { puesto = p })
  cierre_lanza :
      {s : Sistema} {p : Puesto}
      → cerrar_checkin s.puesto ≡ some (p, none)
      → Paso s no_habia (record s { puesto = p })

pub data Corrida : Sistema → List Evento → Sistema → Type 0 where
  fin : {s : Sistema} → Corrida s [] s
  paso :
      {s s' s'' : Sistema} {ev : Evento} {evs : List Evento}
      → Paso s ev s'
      → Corrida s' evs s''
      → Corrida s (ev ∷ evs) s''
