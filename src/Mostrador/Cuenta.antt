-- ===== src/Mostrador/Cuenta.antt =====
-- The counter as a book that is opened for a flight and takes down its pieces.
use aeropuerto.Base.{
  ℕ, ==_iff, ◌-◌, ◌<◌, ◌+◌, ◌≡◌, ◌∙◌, refl, sym, ap, subst, List, [], ◌∷◌, ◌++◌, true, false,
  Option, none, some, if◌then◌else◌, ◌==◌, length, length-append, Bool-cases, Option-cases, ◌⊎◌,
  inl, inr, arith, some_ne_none, some-injective,
}
use aeropuerto.Contenedor.{Equipaje}
use aeropuerto.Mostrador.{
  Puesto, Fase, libre, atiende, Sistema, Evento, nada, inicia, cierra, no_habia, registra, Paso,
  llega, coloca, sin_vuelo, termina, abre, cierre, cierre_lanza, Corrida, fin, paso, lock, unlock,
  iniciar_checkin, cerrar_checkin, comienza_checkin_pasajero, fin_checkin_pasajero,
  registrar_equipaje, get_vuelo_actual, por_registrar,
}

-- The flight that is open, and its pieces.
abbrev pub Libro : Type 0
Libro = Option (ℕ × List Equipaje)

-- What may happen: a piece is taken down only for the flight that is open, and the flight is closed
-- with the number of its pieces. To open a flight while another one is open does nothing.
abbrev pub anotar : Evento → Libro → Option Libro
anotar nada t = some t
anotar (inicia n) none = some (some (n, []))
anotar (inicia n) (some x) = some (some x)
anotar (cierra k) none = none
anotar (cierra k) (some (n, es)) = if length es == k then some none else none
anotar no_habia none = some none
anotar no_habia (some x) = none
anotar (registra v e) none = none
anotar (registra v e) (some (n, es)) = if n == v then some (some (n, es ++ e ∷ [])) else none

-- All events are allowed, and this is the book after them.
pub data Anotado : Libro → List Evento → Libro → Type 0 where
  nada_mas : {t : Libro} → Anotado t [] t
  anota :
      {t t' t'' : Libro} {ev : Evento} {evs : List Evento}
      → anotar ev t ≡ some t'
      → Anotado t' evs t''
      → Anotado t (ev ∷ evs) t''

abbrev pub EsLibro : Puesto → Libro → Type 0
EsLibro p none = p.num_vuelo ≡ none
EsLibro p (some (n, es)) = (p.num_vuelo ≡ some n) × (p.cant_equipajes ≡ length es)

-- The lock is taken exactly while a passenger is served, and he has pieces left only if his flight is
-- open.
abbrev pub EsFase : Puesto → Fase → Type 0
EsFase p libre = p.mutex ≡ 1
EsFase p (atiende v es) = (p.mutex ≡ 0) × ((es ≡ []) ⊎ (p.num_vuelo ≡ some v))

abbrev pub Representa : Sistema → Libro → Type 0
Representa s t = EsLibro s.puesto t × EsFase s.puesto s.fase

-- The lock does not matter to the book.
EsLibro-mutex : (p : Puesto) (k : ℕ) (t : Libro) → EsLibro p t → EsLibro (record p { mutex = k }) t
EsLibro-mutex p k none l = l
EsLibro-mutex p k (some (n, es)) l = l

lock-eq-some :
    (p : Puesto) {q : Puesto}
    → lock p ≡ some q
    → (0 < p.mutex) × (record p { mutex = p.mutex - 1 } ≡ q)
unfolding lock
lock-eq-some p e = elim (Bool-cases (p.mutex == 0)) [
  | inl z ↦ absurd (some_ne_none (sym e ∙ rw (lock, z) refl))
  | inr z ↦ (ground arith, some-injective (sym (rw (lock, z) refl) ∙ e))
]

-- Whoever gets the lock finds nobody served.
sin_pasajero : (p : Puesto) (f : Fase) → EsFase p f → 0 < p.mutex → (f ≡ libre) × (p.mutex ≡ 1)
sin_pasajero p libre m h = (refl, m)
sin_pasajero p (atiende v es) m h = absurd (omega (arith, m.0))

-- An operation under the lock that gives it back.
EsFase-unlock :
    (p q : Puesto) (f : Fase) → EsFase p f → 0 < p.mutex → q.mutex ≡ p.mutex → EsFase q f
EsFase-unlock p q f m h e = let (x, y) = sin_pasajero p f m h in subst (EsFase q) (sym x) (e ∙ y)

por_registrar_lem :
    (vuelo : ℕ) (equipajes : List Equipaje) (p : Puesto)
    → (por_registrar vuelo equipajes p ≡ []) ⊎ (p.num_vuelo ≡ some vuelo)
unfolding por_registrar get_vuelo_actual
por_registrar_lem vuelo equipajes p = elim (Option-cases p.num_vuelo) [
  | inl e ↦ inl (rw (por_registrar, e) refl)
  | inr (n, e) ↦ elim (Bool-cases (n == vuelo)) [
    | inl same ↦ inr (e ∙ ap some ((==_iff n vuelo).0 same))
    | inr other ↦ inl (rw (por_registrar, e, other) refl)
  ]
]

con_vuelo :
    (p : Puesto) {vuelo : ℕ} (e : Equipaje) (es : List Equipaje)
    → EsFase p (atiende vuelo (e ∷ es))
    → p.num_vuelo ≡ some vuelo
con_vuelo p e es (z, inl h) = absurd (omega (arith, ap length h))
con_vuelo p e es (z, inr v) = v

abbrev Sigue : Evento → Libro → Puesto → Fase → Type 0
Sigue ev t p f = (t' : Libro) × (anotar ev t ≡ some t') × EsLibro p t' × EsFase p f

registrar_equipaje-eq-some :
    (p : Puesto) {vuelo : ℕ}
    → p.num_vuelo ≡ some vuelo
    → registrar_equipaje p ≡ some (record p { cant_equipajes = p.cant_equipajes + 1 })
unfolding registrar_equipaje
registrar_equipaje-eq-some p e = abierto p.num_vuelo e
  where
    abierto :
        {r : Puesto} {v : ℕ} (o : Option ℕ)
        → o ≡ some v
        → (elim o as (λ _. Option Puesto) [ none ↦ none | some n ↦ some r ]) ≡ some r
    abierto o h = rw h refl

registra-anotar :
    (p : Puesto) (vuelo : ℕ) (e : Equipaje) (es : List Equipaje) (t : Libro)
    → EsLibro p t
    → EsFase p (atiende vuelo (e ∷ es))
    → Sigue
        (registra vuelo e)
        t
        (record p { cant_equipajes = p.cant_equipajes + 1 })
        (atiende vuelo es)
registra-anotar p vuelo e es none l m = absurd (some_ne_none (sym (con_vuelo p e es m) ∙ l))
registra-anotar p vuelo e es (some (n, ps)) (l, c) m =
    let v = con_vuelo p e es m in
    let same : (n == vuelo) ≡ true = (==_iff n vuelo).1 (some-injective (sym l ∙ v)) in
    (
      some (n, ps ++ e ∷ []),
      rw same refl,
      (l, omega (arith, length-append ps (e ∷ []), c)),
      (m.0, inr v),
    )

abre-anotar :
    (n : ℕ) (p q : Puesto) (f : Fase) (t : Libro)
    → 0 < p.mutex
    → iniciar_checkin n p ≡ some q
    → EsLibro p t
    → EsFase p f
    → Sigue (inicia n) t q f
unfolding iniciar_checkin unlock lock
abre-anotar n p q f none h e l m =
    let z : (p.mutex == 0) ≡ false = ground arith in
    let r = record p { num_vuelo = some n; cant_equipajes = 0; mutex = p.mutex - 1 + 1 } in
    let k : iniciar_checkin n p ≡ some r = rw (iniciar_checkin, lock, z, l) refl in
    subst (λ q. Sigue (inicia n) none q f) (some-injective (sym k ∙ e))
      (some (n, []), refl, (refl, refl), EsFase-unlock p r f m h (omega arith))
abre-anotar n p q f (some (v, es)) h e l m =
    let z : (p.mutex == 0) ≡ false = ground arith in
    let r = record p { mutex = p.mutex - 1 + 1 } in
    let k : iniciar_checkin n p ≡ some r = rw (iniciar_checkin, lock, z, l.0) refl in
    subst (λ q. Sigue (inicia n) (some (v, es)) q f) (some-injective (sym k ∙ e))
      (some (v, es), refl, l, EsFase-unlock p r f m h (omega arith))

abbrev cierre_visto : Option ℕ → Evento
cierre_visto none = no_habia
cierre_visto (some k) = cierra k

cierra-anotar :
    (k : Option ℕ) (p q : Puesto) (f : Fase) (t : Libro)
    → 0 < p.mutex
    → cerrar_checkin p ≡ some (q, k)
    → EsLibro p t
    → EsFase p f
    → Sigue (cierre_visto k) t q f
unfolding cerrar_checkin unlock lock
cierra-anotar k p q f none h e l m =
    let z : (p.mutex == 0) ≡ false = ground arith in
    let r = record p { mutex = p.mutex - 1 + 1 } in
    let d : cerrar_checkin p ≡ some (r, none) = rw (cerrar_checkin, lock, z, l) refl in
    subst (λ x. Sigue (cierre_visto x.1) none x.0 f) (some-injective (sym d ∙ e))
      (none, refl, l, EsFase-unlock p r f m h (omega arith))
cierra-anotar k p q f (some (v, es)) h e (l, c) m =
    let z : (p.mutex == 0) ≡ false = ground arith in
    let r = record p { num_vuelo = none; mutex = p.mutex - 1 + 1 } in
    let d : cerrar_checkin p ≡ some (r, some p.cant_equipajes) =
      rw (cerrar_checkin, lock, z, l) refl in
    let same : (length es == p.cant_equipajes) ≡ true = (==_iff _ _).1 (sym c) in
    subst (λ x. Sigue (cierre_visto x.1) (some (v, es)) x.0 f) (some-injective (sym d ∙ e))
      (none, rw same refl, refl, EsFase-unlock p r f m h (omega arith))

-- They wait while the lock is taken.
iniciar_checkin-pos : (n : ℕ) (p : Puesto) {q : Puesto} → iniciar_checkin n p ≡ some q → 0 < p.mutex
unfolding iniciar_checkin lock
iniciar_checkin-pos n p e = elim (Bool-cases (p.mutex == 0)) [
  | inl z ↦ absurd (some_ne_none (sym e ∙ rw (iniciar_checkin, lock, z) refl))
  | inr z ↦ ground arith
]

cerrar_checkin-pos : (p : Puesto) {q : Puesto × Option ℕ} → cerrar_checkin p ≡ some q → 0 < p.mutex
unfolding cerrar_checkin lock
cerrar_checkin-pos p e = elim (Bool-cases (p.mutex == 0)) [
  | inl z ↦ absurd (some_ne_none (sym e ∙ rw (cerrar_checkin, lock, z) refl))
  | inr z ↦ ground arith
]

Paso-anotar :
    {s s' : Sistema} {ev : Evento} (t : Libro)
    → Paso s ev s'
    → Representa s t
    → Sigue ev t s'.puesto s'.fase
unfolding comienza_checkin_pasajero fin_checkin_pasajero registrar_equipaje unlock
Paso-anotar t (llega {s} {p} vuelo equipajes f e) (l, m) =
    let (h, q) = lock-eq-some s.puesto e in
    let m' : s.puesto.mutex ≡ 1 = subst (EsFase s.puesto) f m in
    (
      t,
      refl,
      subst (λ p. EsLibro p t) q (EsLibro-mutex s.puesto (s.puesto.mutex - 1) t l),
      (sym (ap (λ p. p.mutex) q) ∙ omega arith, por_registrar_lem vuelo equipajes p),
    )
Paso-anotar t (coloca {s} {p} vuelo e es f g) (l, m) =
    let m' = subst (EsFase s.puesto) f m in
    let r = record s.puesto { cant_equipajes = s.puesto.cant_equipajes + 1 } in
    let k = registrar_equipaje-eq-some s.puesto (con_vuelo s.puesto e es m') in
    let q : r ≡ p = some-injective (sym k ∙ g) in
    subst (λ p. Sigue (registra vuelo e) t p (atiende vuelo es)) q
      (registra-anotar s.puesto vuelo e es t l m')
Paso-anotar t (sin_vuelo {s} vuelo e es f g) (l, m) =
    let m' = subst (EsFase s.puesto) f m in (t, refl, l, (m'.0, inl refl))
Paso-anotar t (termina {s} vuelo f) (l, m) =
    let m' = subst (EsFase s.puesto) f m in
    (t, refl, EsLibro-mutex s.puesto (s.puesto.mutex + 1) t l, omega (arith, m'.0))
Paso-anotar t (abre {s} {p} n e) (l, m) =
    abre-anotar n s.puesto p s.fase t (iniciar_checkin-pos n s.puesto e) e l m
Paso-anotar t (cierre {s} {p} k e) (l, m) =
    cierra-anotar (some k) s.puesto p s.fase t (cerrar_checkin-pos s.puesto e) e l m
Paso-anotar t (cierre_lanza {s} {p} e) (l, m) =
    cierra-anotar none s.puesto p s.fase t (cerrar_checkin-pos s.puesto e) e l m

-- Over any run of both processes of a counter, whatever their order, from a state that the book
-- stands for: a piece is registered only for the flight that is open, to close gives the number of the
-- pieces registered since the flight was opened, and it throws only if none is open. The book stands
-- for the state in the end.
pub Corrida-Anotado :
    {s s' : Sistema} {evs : List Evento} (t : Libro)
    → Corrida s evs s'
    → Representa s t
    → (t' : Libro) × Anotado t evs t' × Representa s' t'
Corrida-Anotado t fin r = (t, nada_mas, r)
Corrida-Anotado t (paso p c) r =
    let (t', a, l, m) = Paso-anotar t p r in
    let (t'', as', q) = Corrida-Anotado t' c (l, m) in (t'', anota a as', q)
