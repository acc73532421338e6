-- ===== src/Grupo/Bajas.antt =====
-- `ya_esta_cliente` and `leave`.
use aeropuerto.Base.{
  ℕ, ◌+◌, ◌-◌, ◌<◌, ◌≡◌, ◌∙◌, ◌⊎◌, refl, sym, ap, [], ◌∷◌, Bool, true, false, some, if◌then◌else◌,
  get_or, set, length-set, arith, Option-cases, inl, inr, true_ne_false,
}
use aeropuerto.Grupo.{
  Grupo, Nombre, no_vacio, max_clients, max_nombre_recurso, primero, strncmp_igual, signalize_mutex,
  locked_ya_esta_cliente, ya_esta_cliente, locked_leave, leave,
}
use aeropuerto.Grupo.Clientes.{EsGrupo, con_mutex-elim, cuenta, cuenta-set, primero-some}
use aeropuerto.Grupo.Registro.{
  Esta, primero-Esta, primero-not_Esta, devolver, devolver_dos, EsGrupo-mutex,
}

igual-no_vacio :
    (a nombre : Nombre)
    → no_vacio nombre ≡ true
    → strncmp_igual max_nombre_recurso a nombre ≡ true
    → no_vacio a ≡ true
igual-no_vacio [] [] h e = h
igual-no_vacio [] (y ∷ ys) h e = absurd (true_ne_false (sym e))
igual-no_vacio (x ∷ xs) nombre h e = refl

module _ (g : Grupo) (v : EsGrupo g) (nombre : Nombre) where
  abbrev TrasBusqueda : Grupo × Bool → Type 0
  TrasBusqueda p =
      ((p.1 ≡ true) → Esta nombre g)
      × ((p.1 ≡ false) → ¬ Esta nombre g)
      × (p.0 ≡ record g { mutex = g.mutex + (if p.1 then 1 else 0) })

  locked_ya_esta_cliente_lem :
      0 < g.mutex
      → let r = locked_ya_esta_cliente nombre (record g { mutex = g.mutex - 1 }) in
        TrasBusqueda (signalize_mutex r.0, r.1)
  unfolding locked_ya_esta_cliente
  locked_ya_esta_cliente_lem up =
      elim (Option-cases
        (primero (λ n. strncmp_igual max_nombre_recurso n nombre) g.client_names)) [
          | inl nobody ↦
              rw (nobody, locked_ya_esta_cliente)
                (
                  λ e. absurd (true_ne_false (sym e)),
                  λ e. primero-not_Esta g v nombre nobody,
                  devolver g up ∙ ap (λ m. record g { mutex = m }) {y = g.mutex + 0} (omega arith),
                )
          | inr (i, e) ↦
              rw (e, locked_ya_esta_cliente)
                (λ h. primero-Esta g v nombre e, λ h. absurd (true_ne_false h), devolver_dos g up)
        ]

  -- `ya_esta_cliente` answers whether some slot holds the name, and changes the mutex alone. If the
  -- answer is yes, the mutex ends higher by one than it was: it is given back twice.
  pub ya_esta_cliente_lem :
      {g' : Grupo} {esta : Bool}
      → ya_esta_cliente nombre g ≡ some (g', esta)
      → ((esta ≡ true) → Esta nombre g)
        × ((esta ≡ false) → ¬ Esta nombre g)
        × (g' ≡ record g { mutex = g.mutex + (if esta then 1 else 0) })
  unfolding ya_esta_cliente
  ya_esta_cliente_lem e =
      con_mutex-elim TrasBusqueda (locked_ya_esta_cliente nombre) g e locked_ya_esta_cliente_lem

  -- The slot of the name becomes free, if there is one.
  abbrev TrasLeave : Grupo → Type 0
  TrasLeave g' =
      (¬ Esta nombre g × (g' ≡ g))
      ⊎ ((i : ℕ) × (i < max_clients)
          × (strncmp_igual max_nombre_recurso (get_or g.client_names i []) nombre ≡ true)
          × (g'.client_names ≡ set g.client_names i [])
          × (g'.cant_clientes + 1 ≡ g.cant_clientes)
          × (g'.mutex ≡ g.mutex))

  locked_leave_lem :
      no_vacio nombre ≡ true
      → 0 < g.mutex
      → let r = locked_leave nombre (record g { mutex = g.mutex - 1 }) in
        EsGrupo (signalize_mutex r.0) × TrasLeave (signalize_mutex r.0)
  unfolding locked_leave signalize_mutex
  locked_leave_lem hn up =
      elim (Option-cases
        (primero (λ n. strncmp_igual max_nombre_recurso n nombre) g.client_names)) [
          | inl nobody ↦
              rw (nobody, locked_leave)
                (EsGrupo-mutex g v _, inl (primero-not_Esta g v nombre nobody, devolver g up))
          | inr (i, e) ↦
              let (hi, igual, before) =
                primero-some (λ n. strncmp_igual max_nombre_recurso n nombre) g.client_names e in
              let c = cuenta-set g.client_names i [] hi in
              let z = igual-no_vacio (get_or g.client_names i []) nombre hn igual in
              let uno : cuenta (set g.client_names i []) + 1 ≡ cuenta g.client_names =
                ground arith in
              rw (e, locked_leave)
                (
                  record {
                    length_names = omega (arith, length-set g.client_names i [], v.length_names);
                    cuantos = omega (arith, v.cuantos);
                    actual_dentro = v.actual_dentro;
                  },
                  inr (
                    i,
                    omega (arith, v.length_names),
                    igual,
                    refl,
                    omega (arith, v.cuantos),
                    omega arith,
                  ),
                )
        ]

  -- `leave` of a name that is not empty keeps the invariant. Where no slot holds the name it changes
  -- nothing; else it frees one that does, and the number of clients falls by one.
  pub leave_lem :
      {g' : Grupo}
      → no_vacio nombre ≡ true
      → leave nombre g ≡ some (g', tt)
      → EsGrupo g'
        × ((¬ Esta nombre g × (g' ≡ g))
            ⊎ ((i : ℕ) × (i < max_clients)
                × (strncmp_igual max_nombre_recurso (get_or g.client_names i []) nombre ≡ true)
                × (g'.client_names ≡ set g.client_names i [])
                × (g'.cant_clientes + 1 ≡ g.cant_clientes)
                × (g'.mutex ≡ g.mutex)))
  unfolding leave
  leave_lem hn e =
      con_mutex-elim (λ p. EsGrupo p.0 × TrasLeave p.0) (locked_leave nombre) g e
        (locked_leave_lem hn)
