-- ===== src/Contenedor.antt =====
-- The containers that the loading robot fills: class `Contenedor` of api/contenedor.cpp.
pub mod Carga
pub mod Tractores
mod Tests
use aeropuerto.Base.{
  ℕ, ◌+◌, List, [], ◌∷◌, Bool, true, false, Option, none, some, leb, ◌==◌, if◌then◌else◌, set, take,
  replicate,
}

abbrev pub max_valijas_por_contenedor : ℕ
max_valijas_por_contenedor = 30

abbrev pub max_peso_contenedor : ℕ
max_peso_contenedor = 3000

pub record Equipaje : Type 0 where
  pub rfid : ℕ
  pub peso : ℕ

-- `equipajes` is the array, of which the first `cant_equipajes` entries count.
pub record Contenedor : Type 0 where
  pub peso : ℕ
  pub cant_equipajes : ℕ
  pub equipajes : List Equipaje

abbrev pub contenedor_vacio : Contenedor
contenedor_vacio = record {
  peso = 0;
  cant_equipajes = 0;
  equipajes = replicate max_valijas_por_contenedor (record { rfid = 0; peso = 0 });
}

unfoldable pub hay_lugar : Equipaje → Contenedor → Bool
hay_lugar e c =
    if c.cant_equipajes == max_valijas_por_contenedor
    then false
    else leb (e.peso + c.peso) max_peso_contenedor

-- `none` is the error that it throws; the second test of the number of pieces never fails after the
-- first.
unfoldable pub agregar_equipaje : Equipaje → Contenedor → Option Contenedor
agregar_equipaje e c =
    if hay_lugar e c
    then (if leb c.cant_equipajes max_valijas_por_contenedor
        then some (record {
          equipajes = set c.equipajes c.cant_equipajes e;
          cant_equipajes = c.cant_equipajes + 1;
          peso = c.peso + e.peso;
        })
        else none)
    else none

abbrev pub rfids : List Equipaje → List ℕ
rfids [] = []
rfids (e ∷ es) = e.rfid ∷ rfids es

abbrev pub get_rfids : Contenedor → List ℕ
get_rfids c = rfids (take c.cant_equipajes c.equipajes)
