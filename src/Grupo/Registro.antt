-- ===== src/Grupo/Registro.antt =====
-- The clients of a group: `join`, `leave` and `ya_esta_cliente`.
use aeropuerto.Base.{
  ℕ, ◌+◌, ◌-◌, ◌<◌, ◌≡◌, ◌∙◌, refl, sym, ap, [], ◌∷◌, true, false, not, none, some, get_or, set,
  take, length, length-set, arith, Bool-cases, Option-cases, inl, inr, ◌==◌, true_ne_false,
  not_eq_true,
}
use aeropuerto.Grupo.{
  Grupo, Nombre, Resultado, registrado, cantidad_maxima_alcanzada, ya_esta_registrado, no_vacio,
  max_clients, max_nombre_recurso, primero, strncmp_igual, signalize_mutex, locked_ya_esta_cliente,
  anotar, locked_join, join,
}
use aeropuerto.Grupo.Clientes.{
  EsGrupo, con_mutex-elim, cuenta-set, cuenta-llena, cuenta-le, primero-some, primero-none,
}

-- Some slot holds the name.
abbrev pub Esta : Nombre → Grupo → Type 0
Esta nombre g =
    (i : ℕ) × (i < length g.client_names)
    × (strncmp_igual max_nombre_recurso (get_or g.client_names i []) nombre ≡ true)

-- What each end of `join` means and leaves.
abbrev pub TrasJoin : Nombre → (g g' : Grupo) → Resultado → Type 0
TrasJoin nombre g g' registrado =
    (g.cant_clientes < max_clients)
    × (¬ Esta nombre g)
    × (g'.mutex ≡ g.mutex)
    × (g'.cant_clientes ≡ g.cant_clientes + 1)
    × ((i : ℕ) × (i < max_clients)
        × (no_vacio (get_or g.client_names i []) ≡ false)
        × (g'.numero_cola_asignada ≡ i + g.numero_base_cola_asignada)
        × (g'.client_names ≡ set g.client_names i (take max_nombre_recurso nombre)))
TrasJoin nombre g g' cantidad_maxima_alcanzada = (g.cant_clientes ≡ max_clients) × (g' ≡ g)
TrasJoin nombre g g' ya_esta_registrado = Esta nombre g × (g' ≡ record g { mutex = g.mutex + 1 })

no_vacio-take :
    (nombre : Nombre) → no_vacio nombre ≡ true → no_vacio (take max_nombre_recurso nombre) ≡ true
no_vacio-take [] h = h
no_vacio-take (x ∷ xs) h = refl

module _ (g : Grupo) (v : EsGrupo g) (nombre : Nombre) where
  -- A table that is not full has a free slot.
  hay_libre :
      g.cant_clientes < max_clients → ¬ (primero (λ n. not (no_vacio n)) g.client_names ≡ none)
  hay_libre h e =
      let c = cuenta-llena g.client_names (primero-none (λ n. not (no_vacio n)) g.client_names e) in
      omega (arith, v.cuantos, v.length_names)

  anotar_lem :
      no_vacio nombre ≡ true
      → g.cant_clientes < max_clients
      → ¬ Esta nombre g
      → EsGrupo (anotar nombre g) × TrasJoin nombre g (anotar nombre g) registrado
  unfolding anotar
  anotar_lem hn h ne = elim (Option-cases (primero (λ n. not (no_vacio n)) g.client_names)) [
    | inl full ↦ absurd (hay_libre h full)
    | inr (i, e) ↦
        let (hi, free, before) = primero-some (λ n. not (no_vacio n)) g.client_names e in
        let c = cuenta-set g.client_names i (take max_nombre_recurso nombre) hi in
        let z : no_vacio (get_or g.client_names i []) ≡ false = not_eq_true _ free in
        rw (e, anotar)
          (
            record {
              length_names = omega (
                arith,
                length-set g.client_names i (take max_nombre_recurso nombre),
                v.length_names,
              );
              cuantos = ground (arith, v.cuantos, no_vacio-take nombre hn);
              actual_dentro = v.actual_dentro;
            },
            (h, ne, refl, refl, (i, omega (arith, v.length_names), z, refl, refl)),
          )
  ]

  pub primero-Esta :
      {i : ℕ}
      → primero (λ n. strncmp_igual max_nombre_recurso n nombre) g.client_names ≡ some i
      → Esta nombre g
  primero-Esta {i} e =
      let (a, b, c) =
        primero-some (λ n. strncmp_igual max_nombre_recurso n nombre) g.client_names e in
      (i, a, b)

  pub primero-not_Esta :
      primero (λ n. strncmp_igual max_nombre_recurso n nombre) g.client_names ≡ none
      → ¬ Esta nombre g
  primero-not_Esta e (i, a, b) =
      true_ne_false
        (sym b ∙ primero-none (λ n. strncmp_igual max_nombre_recurso n nombre) g.client_names e i a)

module _ (g : Grupo) (v : EsGrupo g) where
  pub EsGrupo-signalize_mutex : EsGrupo (signalize_mutex g)
  unfolding signalize_mutex
  EsGrupo-signalize_mutex = record {
    length_names = v.length_names;
    cuantos = v.cuantos;
    actual_dentro = v.actual_dentro;
  }

  pub EsGrupo-mutex : (m : ℕ) → EsGrupo (record g { mutex = m })
  EsGrupo-mutex m = record {
    length_names = v.length_names;
    cuantos = v.cuantos;
    actual_dentro = v.actual_dentro;
  }

-- The case of `join` that registers.
registrar :
    (g : Grupo) (nombre : Nombre)
    → EsGrupo g
    → no_vacio nombre ≡ true
    → 0 < g.mutex
    → g.cant_clientes < max_clients
    → ¬ Esta nombre g
    → let g' = signalize_mutex (anotar nombre (record g { mutex = g.mutex - 1 })) in
      EsGrupo g' × TrasJoin nombre g g' registrado
unfolding signalize_mutex
registrar g nombre v hn up h ne =
    let g1 : Grupo = record g { mutex = g.mutex - 1 } in
    let (v', (a, b, m, c, d)) = anotar_lem g1 (EsGrupo-mutex g v (g.mutex - 1)) nombre hn h ne in
    (EsGrupo-signalize_mutex (anotar nombre g1) v', (a, b, omega (arith, m), c, d))

-- The mutex that is taken and given back.
pub devolver : (g : Grupo) → 0 < g.mutex → signalize_mutex (record g { mutex = g.mutex - 1 }) ≡ g
unfolding signalize_mutex
devolver g up = ap (λ m. record g { mutex = m }) (omega arith)

-- The mutex that is taken and given back twice.
pub devolver_dos :
    (g : Grupo)
    → 0 < g.mutex
    → signalize_mutex (signalize_mutex (record g { mutex = g.mutex - 1 }))
      ≡ record g { mutex = g.mutex + 1 }
unfolding signalize_mutex
devolver_dos g up = ap (λ m. record g { mutex = m }) (omega arith)

module _ (g : Grupo) (v : EsGrupo g) (nombre : Nombre) where
  locked_join_lem :
      no_vacio nombre ≡ true
      → 0 < g.mutex
      → let r = locked_join nombre (record g { mutex = g.mutex - 1 }) in
        EsGrupo (signalize_mutex r.0) × TrasJoin nombre g (signalize_mutex r.0) r.1
  unfolding locked_join locked_ya_esta_cliente
  locked_join_lem hn up =
      let v1 = EsGrupo-mutex g v (g.mutex - 1) in
      elim (Bool-cases (g.cant_clientes == max_clients)) [
        | inl full ↦ rw (full) (
          EsGrupo-signalize_mutex (record g { mutex = g.mutex - 1 }) v1,
          (ground arith, devolver g up),
        )
        | inr room ↦
            elim (Option-cases
              (primero (λ n. strncmp_igual max_nombre_recurso n nombre) g.client_names)) [
                | inl nobody ↦
                    rw (room, nobody, locked_ya_esta_cliente)
                      (registrar g nombre v hn up
                        (ground (arith, v.cuantos, v.length_names, cuenta-le g.client_names))
                        (primero-not_Esta g v nombre nobody))
                | inr (i, e) ↦
                    rw (room, e, locked_ya_esta_cliente)
                      (
                        EsGrupo-signalize_mutex _
                            (EsGrupo-signalize_mutex (record g { mutex = g.mutex - 1 }) v1),
                        (primero-Esta g v nombre e, devolver_dos g up),
                      )
              ]
      ]

  -- `join` of a name that is not empty keeps the invariant. It registers the client in a free slot
  -- if the group is not full and the name is not there, and gives the mutex back; a full group it
  -- leaves as it was; and where the name is there already only the mutex changes, which ends higher
  -- by one than it was.
  pub join_lem :
      {g' : Grupo} {r : Resultado}
      → no_vacio nombre ≡ true
      → join nombre g ≡ some (g', r)
      → EsGrupo g' × TrasJoin nombre g g' r
  unfolding join
  join_lem hn e =
      con_mutex-elim (λ p. EsGrupo p.0 × TrasJoin nombre g p.0 p.1) (locked_join nombre) g e
        (locked_join_lem hn)
