-- ===== src/Contenedor/Carga.antt =====
-- What a container holds after a piece is put in.
use aeropuerto.Base.{
  ℕ, zero, suc, ◌+◌, ◌≤◌, ◌<◌, ◌≡◌, ◌∙◌, refl, ap, List, [], ◌∷◌, ◌++◌, true, Option, none, some,
  leb, ◌==◌, set, take, length, length-set, arith, Bool-cases, inl, inr,
}
use aeropuerto.Contenedor.{
  max_valijas_por_contenedor, max_peso_contenedor, Equipaje, Contenedor, contenedor_vacio,
  hay_lugar, agregar_equipaje, rfids, get_rfids,
}

abbrev pub pesos : List Equipaje → ℕ
pesos [] = 0
pesos (e ∷ es) = e.peso + pesos es

-- The array has its size, the weight is that of the pieces that count, and both limits are kept.
pub record EsContenedor (c : Contenedor) : Type 0 where
  pub length_equipajes : length c.equipajes ≡ max_valijas_por_contenedor
  pub caben : c.cant_equipajes ≤ max_valijas_por_contenedor
  pub peso_total : c.peso ≡ pesos (take c.cant_equipajes c.equipajes)
  pub peso_maximo : c.peso ≤ max_peso_contenedor

pub contenedor_vacio-EsContenedor : EsContenedor contenedor_vacio
contenedor_vacio-EsContenedor = record {
  length_equipajes = refl;
  caben = omega arith;
  peso_total = refl;
  peso_maximo = omega arith;
}

-- To write the entry after the first `n` is to append to them.
take-set :
    (es : List Equipaje) (n : ℕ) (e : Equipaje)
    → n < length es
    → take (suc n) (set es n e) ≡ take n es ++ e ∷ []
take-set [] n e h = absurd (omega arith)
take-set (x ∷ xs) zero e h = refl
take-set (x ∷ xs) (suc n) e h = ap (λ l. x ∷ l) (take-set xs n e (omega arith))

pesos-append : (es : List Equipaje) (e : Equipaje) → pesos (es ++ e ∷ []) ≡ pesos es + e.peso
pesos-append [] e = omega arith
pesos-append (x ∷ xs) e = omega (arith, pesos-append xs e)

rfids-append : (es : List Equipaje) (e : Equipaje) → rfids (es ++ e ∷ []) ≡ rfids es ++ e.rfid ∷ []
rfids-append [] e = refl
rfids-append (x ∷ xs) e = ap (λ l. x.rfid ∷ l) (rfids-append xs e)

-- A piece that fits is put behind the others, and the container keeps its limits. An error leaves it
-- as it is, and comes exactly if the container is full or the piece would make it too heavy.
abbrev pub TrasAgregar : Equipaje → Contenedor → Option Contenedor → Type 0
TrasAgregar e c none =
    ¬ ((c.cant_equipajes < max_valijas_por_contenedor) × (c.peso + e.peso ≤ max_peso_contenedor))
TrasAgregar e c (some c') =
    EsContenedor c'
    × (get_rfids c' ≡ get_rfids c ++ e.rfid ∷ [])
    × (c'.peso ≡ c.peso + e.peso)
    × (c.cant_equipajes < max_valijas_por_contenedor)

module _ (e : Equipaje) (c : Contenedor) (v : EsContenedor c) where
  agregada :
      c.cant_equipajes < max_valijas_por_contenedor
      → take (c.cant_equipajes + 1) (set c.equipajes c.cant_equipajes e)
        ≡ take c.cant_equipajes c.equipajes ++ e ∷ []
  agregada h =
      ap (λ n. take n (set c.equipajes c.cant_equipajes e)) {y = suc c.cant_equipajes} (omega arith)
      ∙ take-set c.equipajes c.cant_equipajes e (omega (arith, v.length_equipajes))

  -- `agregar_equipaje` puts a piece that fits behind the others and keeps the limits of the
  -- container, and it throws exactly if the container is full or the piece would make it too heavy.
  pub agregar_equipaje_lem : TrasAgregar e c (agregar_equipaje e c)
  unfolding agregar_equipaje hay_lugar
  agregar_equipaje_lem = elim (Bool-cases (c.cant_equipajes == max_valijas_por_contenedor)) [
    | inl full ↦ rw full (λ (a, b). ground arith)
    | inr more ↦ elim (Bool-cases (leb (e.peso + c.peso) max_peso_contenedor)) [
      | inl fits ↦
          let h : c.cant_equipajes < max_valijas_por_contenedor = ground (arith, v.caben) in
          let q : leb c.cant_equipajes max_valijas_por_contenedor ≡ true =
            ground (arith, v.caben) in
          rw (more, fits, q)
            (
              record {
                length_equipajes =
                    omega (arith, length-set c.equipajes c.cant_equipajes e, v.length_equipajes);
                caben = omega arith;
                peso_total = omega (
                  arith,
                  v.peso_total,
                  ap pesos (agregada h),
                  pesos-append (take c.cant_equipajes c.equipajes) e,
                );
                peso_maximo = ground arith;
              },
              ap rfids (agregada h) ∙ rfids-append (take c.cant_equipajes c.equipajes) e,
              refl,
              h,
            )
      | inr heavy ↦ rw (more, heavy) (λ (a, b). ground arith)
    ]
  ]
