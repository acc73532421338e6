-- ===== src/Cintas/Carga/Invariante.antt =====
-- What the operations of the container belt keep.
use aeropuerto.Base.{
  ℕ, ◌-◌, ◌≤◌, ◌<◌, ◌≡◌, refl, subst, [], ◌∷◌, ◌++◌, Bool, true, false, not, ◌&&◌, ◌||◌, Option,
  none, some, inl, inr, arith, ltb, ◌==◌, if◌then◌else◌, Bool-cases, Option-cases, ◌↔◌,
}
use aeropuerto.Cintas.Lado.{Lado, esperar_turno}
use aeropuerto.Cintas.Turnos.{
  dar_turno-Turnos, despertar-Turnos, cantidad-despertar, cantidad-dar_turno,
  cantidad-esperar_turno,
}
use aeropuerto.Cintas.Checkin
use aeropuerto.Cintas.Checkin.{Cinta}
use aeropuerto.Cintas.Checkin.Invariante.{EsValida, equipajes, SacaEnCurso}
use aeropuerto.Cintas.Checkin.Pasadas.{lista, poner_equipaje_lem, sacar_con_lock_lem}
use aeropuerto.Cintas.Carga.{
  CintaCarga, despertar_consumidores, poner_equipaje, comenzar_nueva_carga,
  avisar_cierre_de_checkin, sacar_con_lock, sacar_equipaje,
}

-- The belt is valid, and the consumer has been told only of a check-in that is closed.
pub record EsCarga {ℓ} {T : Type ℓ} (k : CintaCarga T) : Type 0 where
  pub cinta : EsValida k.cinta
  pub cerrado : k.checkin_cerrado ≤ 1
  pub avisado : k.ya_me_desperto ≡ true → k.checkin_cerrado ≡ 1

-- The check-in has closed and the consumer does not know yet.
abbrev pub aviso_pendiente {ℓ} : {T : Type ℓ} → CintaCarga T → Bool
aviso_pendiente k = not k.ya_me_desperto && k.checkin_cerrado == 1

module _ {ℓ} {T : Type ℓ} (k : CintaCarga T) (v : EsCarga k) where
  -- Between two flights: the belt keeps its pieces, and no closing is pending or told.
  pub comenzar_nueva_carga-EsCarga : EsCarga (comenzar_nueva_carga k)
  unfolding comenzar_nueva_carga
  comenzar_nueva_carga-EsCarga = record {
    cinta = v.cinta;
    cerrado = omega arith;
    avisado = λ e. absurd (cc);
  }

  pub avisar_cierre_de_checkin-EsCarga : (n : ℕ) → EsCarga (avisar_cierre_de_checkin n k)
  unfolding avisar_cierre_de_checkin despertar_consumidores Checkin.despertar_consumidores
  avisar_cierre_de_checkin-EsCarga n = record {
    cinta = record {
      anillo = v.cinta.anillo;
      productores = v.cinta.productores;
      consumidores = despertar-Turnos k.cinta.consumidores v.cinta.consumidores;
      hay_consumidor =
          omega (arith, v.cinta.hay_consumidor, cantidad-despertar k.cinta.consumidores);
    };
    cerrado = omega arith;
    avisado = λ e. refl;
  }

-- What a pass of the consumer comes to from the belt `k`. With the closing pending it takes nothing,
-- returns the default piece and notes the closing; else it is a pass of the belt below.
abbrev pub Saco {ℓ} : {T : Type ℓ} (nulo : T) → CintaCarga T → CintaCarga T → Option T → Type ℓ
Saco nulo k k' elemento =
    EsCarga k'
    × (k'.checkin_cerrado ≡ k.checkin_cerrado)
    × (k'.numero_de_valijas_totales ≡ k.numero_de_valijas_totales)
    × (k'.ya_me_desperto ≡ (k.ya_me_desperto || aviso_pendiente k))
    × (equipajes nulo k.cinta
        ≡ (if aviso_pendiente k then [] else lista elemento) ++ equipajes nulo k'.cinta)
    × (aviso_pendiente k ≡ true → elemento ≡ some nulo)
    × (aviso_pendiente k ≡ false → (elemento ≡ none) ↔ (k.cinta.cantidad_elementos ≡ 0))

module _ {ℓ} {T : Type ℓ} (nulo : T) (i : ℕ) {antes : Lado} (k : CintaCarga T) where
  sacar_con_lock-Saco :
      SacaEnCurso i antes k.cinta
      → k.checkin_cerrado ≤ 1
      → (k.ya_me_desperto ≡ true → k.checkin_cerrado ≡ 1)
      → Saco nulo k (sacar_con_lock nulo i k).0 (sacar_con_lock nulo i k).1
  unfolding sacar_con_lock
  sacar_con_lock-Saco p h a = elim (Bool-cases (k.ya_me_desperto || k.checkin_cerrado == 0)) [
    | inl normal ↦
        let nada : aviso_pendiente k ≡ false = ground arith in
        let below = sacar_con_lock_lem nulo i k.cinta p in
        rw (normal, nada)
          (
            record { cinta = below.0; cerrado = h; avisado = a },
            refl,
            refl,
            ground arith,
            below.2,
            (λ e. absurd (cc)),
            λ e. below.1,
          )
    | inr cierra ↦
        let pendiente : aviso_pendiente k ≡ true = ground arith in
        rw (cierra, pendiente)
          (
            record {
              cinta = record {
                anillo = p.anillo;
                productores = p.productores;
                consumidores = dar_turno-Turnos i antes p.uno_de p.turno p.consumidores;
                hay_consumidor = omega (
                  arith,
                  p.uno_de,
                  cantidad-dar_turno i k.cinta.consumidores,
                  cantidad-esperar_turno i antes p.turno,
                );
              };
              cerrado = h;
              avisado = λ e. ground arith;
            },
            refl,
            refl,
            ground arith,
            refl,
            (λ e. refl),
            λ e. absurd (cc),
          )
  ]

module _ {ℓ} {T : Type ℓ} (nulo : T) (k : CintaCarga T) where
  sacar_equipaje-eq-some :
      (id_consumidor : ℕ) {r : CintaCarga T × Option T}
      → sacar_equipaje nulo id_consumidor k ≡ some r
      → (turno : Lado) × (esperar_turno (id_consumidor - 1) k.cinta.consumidores ≡ some turno)
        × (sacar_con_lock nulo
              (id_consumidor - 1)
              (record k { cinta = record (k.cinta) { consumidores = turno } })
            ≡ r)
  unfolding sacar_equipaje
  sacar_equipaje-eq-some id_consumidor e =
      elim (Option-cases (esperar_turno (id_consumidor - 1) k.cinta.consumidores)) [
        | inl waits ↦ absurd (ground arith)
        | inr (turno, w) ↦ (turno, w, ground arith)
      ]

module _ {ℓ} {T : Type ℓ} (nulo : T) (k : CintaCarga T) (v : EsCarga k) where
  -- A pass of `sacar_equipaje` that does not wait keeps the belt valid. With the closing pending it
  -- takes no piece, returns the default one and notes the closing. Else it takes the oldest piece
  -- and no other, none exactly if the belt is empty, and the flag stays.
  pub sacar_equipaje-Saco :
      (id_consumidor : ℕ) {k' : CintaCarga T} {elemento : Option T}
      → 0 < id_consumidor
      → id_consumidor ≤ k.cinta.consumidores.cantidad
      → sacar_equipaje nulo id_consumidor k ≡ some (k', elemento)
      → Saco nulo k k' elemento
  sacar_equipaje-Saco id_consumidor hp hc e =
      let (turno, w, r) = sacar_equipaje-eq-some nulo k id_consumidor e in
      subst (λ (r : CintaCarga T × Option T). Saco nulo k r.0 r.1) r
        (sacar_con_lock-Saco nulo (id_consumidor - 1)
          (record k { cinta = record (k.cinta) { consumidores = turno } })
          (record {
            anillo = v.cinta.anillo;
            uno_de = omega arith;
            turno = w;
            productores = v.cinta.productores;
            consumidores = v.cinta.consumidores;
          })
          v.cerrado v.avisado)

  -- A pass of `poner_equipaje` that does not wait keeps the belt valid and leaves the notice of the
  -- closing alone. It places the piece behind the others exactly if there is room.
  pub poner_equipaje-EsCarga :
      (x : T) (id_productor : ℕ) {k' : CintaCarga T} {coloque : Bool}
      → 0 < id_productor
      → id_productor ≤ k.cinta.productores.cantidad
      → poner_equipaje x id_productor k ≡ some (k', coloque)
      → EsCarga k'
        × (k' ≡ record k { cinta = k'.cinta })
        × (coloque ≡ ltb k.cinta.cantidad_elementos k.cinta.tamanio_vector)
        × (equipajes nulo k'.cinta ≡ equipajes nulo k.cinta ++ (if coloque then x ∷ [] else []))
  unfolding poner_equipaje
  poner_equipaje-EsCarga x id_productor {k'} {coloque} hp hc e =
      elim (Option-cases (Checkin.poner_equipaje x id_productor k.cinta)) [
        | inl waits ↦ absurd (ground arith)
        | inr ((c', b), w) ↦
            let below = poner_equipaje_lem nulo k.cinta v.cinta x id_productor hp hc w in
            subst
              (λ (r : CintaCarga T × Bool).
                EsCarga r.0
                × (r.0 ≡ record k { cinta = r.0.cinta })
                × (r.1 ≡ ltb k.cinta.cantidad_elementos k.cinta.tamanio_vector)
                × (equipajes nulo r.0.cinta
                    ≡ equipajes nulo k.cinta ++ (if r.1 then x ∷ [] else [])))
              {x = (record k { cinta = c' }, b)} (ground arith)
              (
                record { cinta = below.0; cerrado = v.cerrado; avisado = v.avisado },
                refl,
                below.1,
                below.2,
              )
      ]
