-- ===== src/Cintas/Checkin/Invariante.antt =====
-- The invariant of the check-in belt, what the parts of a pass keep of it, and what they do to the
-- queue of the pieces that lie on the belt.
use aeropuerto.Base.{
  ℕ, ◌+◌, ◌-◌, ◌<◌, ◌≡◌, List, [], ◌∷◌, ◌++◌, some, inl, inr, arith, ◌==◌, get_or, length-replicate,
  Bool-cases,
}
use aeropuerto.Base.Anillo.{
  ventana, EsAnillo, EsAnillo-poner, EsAnillo-sacar, ventana-poner, ventana_of_ne_zero,
}
use aeropuerto.Cintas.Lado.{Lado, esperar_turno}
use aeropuerto.Cintas.Turnos.{
  Turnos, inicial-Turnos, Turnos-motivo, dar_turno-Turnos, dormir-Turnos, despertar-Turnos,
  cantidad-despertar, cantidad-dormir, cantidad-dar_turno, cantidad-esperar_turno,
}
use aeropuerto.Cintas.Checkin.{
  Cinta, cinta_inicial, despertar_consumidores, despertar_productores, colocar, ceder_productor,
  quitar, ceder_consumidor,
}

-- A producer sleeps only while the belt is full, the consumer only while it is empty.
pub record EsValida {ℓ} {T : Type ℓ} (c : Cinta T) : Type 0 where
  pub anillo :
      EsAnillo c.vector_elementos c.tamanio_vector c.posicion_libre c.posicion_ocupada
        c.cantidad_elementos
  pub productores : Turnos c.productores (c.cantidad_elementos ≡ c.tamanio_vector)
  pub consumidores : Turnos c.consumidores (c.cantidad_elementos ≡ 0)
  pub hay_consumidor : 0 < c.consumidores.cantidad

pub cinta_inicial-EsValida {ℓ} :
    {T : Type ℓ} (capacidad productores consumidores : ℕ) (nulo : T)
    → 0 < capacidad
    → 0 < consumidores
    → EsValida (cinta_inicial capacidad productores consumidores nulo)
cinta_inicial-EsValida capacidad productores consumidores nulo h k = record {
  anillo = record {
    entra = omega (arith, length-replicate capacidad nulo);
    ocupada_dentro = h;
    cabe = omega arith;
    siguiente = omega arith;
  };
  productores = inicial-Turnos productores;
  consumidores = inicial-Turnos consumidores;
  hay_consumidor = k;
}

-- The pieces on the belt, the oldest first.
abbrev pub equipajes {ℓ} : {T : Type ℓ} (nulo : T) → Cinta T → List T
equipajes nulo c =
    ventana nulo c.vector_elementos c.tamanio_vector c.posicion_ocupada c.cantidad_elementos

-- The middle of a pass of producer `i`: he holds the turn that the side `antes` gave him.
pub record PoneEnCurso {ℓ} {T : Type ℓ} (i : ℕ) (antes : Lado) (c : Cinta T) : Type 0 where
  pub anillo :
      EsAnillo c.vector_elementos c.tamanio_vector c.posicion_libre c.posicion_ocupada
        c.cantidad_elementos
  pub uno_de : i < antes.cantidad
  pub turno : esperar_turno i antes ≡ some c.productores
  pub productores : Turnos antes (c.cantidad_elementos ≡ c.tamanio_vector)
  pub consumidores : Turnos c.consumidores (c.cantidad_elementos ≡ 0)
  pub hay_consumidor : 0 < c.consumidores.cantidad

-- The middle of a pass of consumer `i`.
pub record SacaEnCurso {ℓ} {T : Type ℓ} (i : ℕ) (antes : Lado) (c : Cinta T) : Type 0 where
  pub anillo :
      EsAnillo c.vector_elementos c.tamanio_vector c.posicion_libre c.posicion_ocupada
        c.cantidad_elementos
  pub uno_de : i < antes.cantidad
  pub turno : esperar_turno i antes ≡ some c.consumidores
  pub productores : Turnos c.productores (c.cantidad_elementos ≡ c.tamanio_vector)
  pub consumidores : Turnos antes (c.cantidad_elementos ≡ 0)

module _ {ℓ} {T : Type ℓ} (c : Cinta T) where
  pub colocar-PoneEnCurso :
      (x : T) {i : ℕ} {antes : Lado}
      → c.cantidad_elementos < c.tamanio_vector
      → PoneEnCurso i antes c
      → PoneEnCurso i antes (colocar x c)
  unfolding colocar despertar_consumidores
  colocar-PoneEnCurso x h p = elim (Bool-cases (c.cantidad_elementos + 1 == 1)) [
    | inl first ↦ rw first (record {
      anillo = EsAnillo-poner x h p.anillo;
      uno_de = p.uno_de;
      turno = p.turno;
      productores = Turnos-motivo (λ e. absurd (omega arith)) p.productores;
      consumidores = despertar-Turnos c.consumidores p.consumidores;
      hay_consumidor = omega (arith, p.hay_consumidor, cantidad-despertar c.consumidores);
    })
    | inr later ↦ rw later (record {
      anillo = EsAnillo-poner x h p.anillo;
      uno_de = p.uno_de;
      turno = p.turno;
      productores = Turnos-motivo (λ e. absurd (omega arith)) p.productores;
      consumidores = Turnos-motivo (λ e. absurd (ground arith)) p.consumidores;
      hay_consumidor = p.hay_consumidor;
    })
  ]

  pub ceder_productor-EsValida :
      (i : ℕ) {antes : Lado} → PoneEnCurso i antes c → EsValida (ceder_productor i c)
  unfolding ceder_productor
  ceder_productor-EsValida i {antes} p =
      elim (Bool-cases (c.cantidad_elementos == c.tamanio_vector)) [
        | inl full ↦ rw full (record {
          anillo = p.anillo;
          productores = dormir-Turnos i antes p.uno_de (ground arith) p.turno p.productores;
          consumidores = p.consumidores;
          hay_consumidor = p.hay_consumidor;
        })
        | inr room ↦ rw room (record {
          anillo = p.anillo;
          productores = dar_turno-Turnos i antes p.uno_de p.turno p.productores;
          consumidores = p.consumidores;
          hay_consumidor = p.hay_consumidor;
        })
      ]

  pub quitar-SacaEnCurso :
      {i : ℕ} {antes : Lado}
      → 0 < c.cantidad_elementos
      → SacaEnCurso i antes c
      → SacaEnCurso i antes (quitar c)
  unfolding quitar despertar_productores
  quitar-SacaEnCurso h p = elim (Bool-cases (c.cantidad_elementos - 1 == c.tamanio_vector - 1)) [
    | inl was_full ↦ rw was_full (record {
      anillo = EsAnillo-sacar h p.anillo;
      uno_de = p.uno_de;
      turno = p.turno;
      productores = despertar-Turnos c.productores p.productores;
      consumidores = Turnos-motivo (λ e. absurd (omega arith)) p.consumidores;
    })
    | inr had_room ↦ rw had_room (record {
      anillo = EsAnillo-sacar h p.anillo;
      uno_de = p.uno_de;
      turno = p.turno;
      productores = Turnos-motivo (λ e. absurd (ground arith)) p.productores;
      consumidores = Turnos-motivo (λ e. absurd (omega arith)) p.consumidores;
    })
  ]

  pub ceder_consumidor-EsValida :
      (i : ℕ) {antes : Lado} → SacaEnCurso i antes c → EsValida (ceder_consumidor i c)
  unfolding ceder_consumidor
  ceder_consumidor-EsValida i {antes} p = elim (Bool-cases (c.cantidad_elementos == 0)) [
    | inl vacia ↦ rw vacia (record {
      anillo = p.anillo;
      productores = p.productores;
      consumidores = dormir-Turnos i antes p.uno_de (ground arith) p.turno p.consumidores;
      hay_consumidor = omega (
        arith,
        p.uno_de,
        cantidad-dormir i c.consumidores,
        cantidad-esperar_turno i antes p.turno,
      );
    })
    | inr hay ↦ rw hay (record {
      anillo = p.anillo;
      productores = p.productores;
      consumidores = dar_turno-Turnos i antes p.uno_de p.turno p.consumidores;
      hay_consumidor = omega (
        arith,
        p.uno_de,
        cantidad-dar_turno i c.consumidores,
        cantidad-esperar_turno i antes p.turno,
      );
    })
  ]

  -- The queue of the belt through the parts of a pass.
  module _ (nulo : T) where
    pub equipajes-colocar :
        (x : T)
        → c.cantidad_elementos < c.tamanio_vector
        → EsAnillo c.vector_elementos c.tamanio_vector c.posicion_libre c.posicion_ocupada
            c.cantidad_elementos
        → equipajes nulo (colocar x c) ≡ equipajes nulo c ++ x ∷ []
    unfolding colocar despertar_consumidores
    equipajes-colocar x h r = elim (Bool-cases (c.cantidad_elementos + 1 == 1)) [
      | inl first ↦ rw first (ventana-poner nulo x h r)
      | inr later ↦ rw later (ventana-poner nulo x h r)
    ]

    pub equipajes-ceder_productor :
        (i : ℕ) → equipajes nulo (ceder_productor i c) ≡ equipajes nulo c
    unfolding ceder_productor
    equipajes-ceder_productor i = elim (Bool-cases (c.cantidad_elementos == c.tamanio_vector)) [
      | inl full ↦ rw full
      | inr room ↦ rw room
    ]

    pub equipajes-quitar :
        0 < c.cantidad_elementos
        → equipajes nulo c
          ≡ get_or c.vector_elementos c.posicion_ocupada nulo ∷ equipajes nulo (quitar c)
    unfolding quitar despertar_productores
    equipajes-quitar h = elim (Bool-cases (c.cantidad_elementos - 1 == c.tamanio_vector - 1)) [
      | inl was_full ↦ rw was_full (ventana_of_ne_zero nulo _ _ _ _ (omega arith))
      | inr had_room ↦ rw had_room (ventana_of_ne_zero nulo _ _ _ _ (omega arith))
    ]

    pub equipajes-ceder_consumidor :
        (i : ℕ) → equipajes nulo (ceder_consumidor i c) ≡ equipajes nulo c
    unfolding ceder_consumidor
    equipajes-ceder_consumidor i = elim (Bool-cases (c.cantidad_elementos == 0)) [
      | inl vacia ↦ rw vacia
      | inr hay ↦ rw hay
    ]
