-- ===== src/Cintas/Principal/Turno.antt =====
-- The one turn of the consumers of the central belt: it stands in a semaphore, is held by whoever has
-- read the piece at the head, or sleeps while the belt is empty.
use aeropuerto.Base.{
  ◌==◌, ◌-◌, wait_on, wait_on-eq-some, Option, some, none, ltb→lt, subst, ap, refl, ℕ, zero, suc,
  ◌+◌, ◌≤◌, ◌<◌, ◌≡◌, List, [], ◌∷◌, arith, ltb, length, get_or, set, length-set, get_or-set,
  signalize, Bool-cases, true, false, inl, inr,
}
use aeropuerto.Cintas.Lado.{Lado}
use aeropuerto.Cintas.Principal.{
  CintaPrincipal, signalize_consumidor, colocar, quitar, extraer_elemento, ceder_turno,
  avanzar_cinta, leer_con_lock,
}

-- The list of a piece that may be missing.
abbrev pub lista {ℓ} : {T : Type ℓ} → Option T → List T
lista none = []
lista (some x) = x ∷ []

abbrev pub suma : List ℕ → ℕ
suma [] = 0
suma (x ∷ xs) = x + suma xs

suma-set : (xs : List ℕ) (i v : ℕ) → i < length xs → suma (set xs i v) + get_or xs i 0 ≡ suma xs + v
suma-set [] i v h = elim h [ ]
suma-set (x ∷ xs) zero v h = omega arith
suma-set (x ∷ xs) (suc i) v h = omega (arith, suma-set xs i v)

get_or-le-suma : (xs : List ℕ) (i : ℕ) → get_or xs i 0 ≤ suma xs
get_or-le-suma [] i = omega arith
get_or-le-suma (x ∷ xs) zero = omega arith
get_or-le-suma (x ∷ xs) (suc i) = omega (arith, get_or-le-suma xs i)

-- Where the turns are not 0, some semaphore is up.
pub suma-pos : (xs : List ℕ) → 0 < suma xs → (i : ℕ) × (i < length xs) × (0 < get_or xs i 0)
suma-pos [] h = absurd (omega arith)
suma-pos (zero ∷ xs) h = let (i, a, b) = suma-pos xs (omega arith) in (suc i, omega arith, b)
suma-pos (suc x ∷ xs) h = (0, omega arith, omega arith)

-- `leyeron` consumers hold the turn. Whoever holds it, and whoever but the first is to get it, has a
-- piece at the head.
pub record EsTurno {ℓ} {T : Type ℓ} (c : CintaPrincipal T) (leyeron : ℕ) : Type 0 where
  pub length_semaforo : length c.semaforo_consumidores ≡ c.cantidad_consumidores
  pub hay_consumidor : 0 < c.cantidad_consumidores
  pub uno : suma c.semaforo_consumidores + c.consumidor_esperando + leyeron ≡ 1
  pub dormida : c.consumidor_esperando ≡ 1 → c.cantidad_elementos ≡ 0
  pub leida : 0 < leyeron → 0 < c.cantidad_elementos
  pub otros : (i : ℕ) → 0 < i → 0 < get_or c.semaforo_consumidores i 0 → 0 < c.cantidad_elementos

module _ (sems : List ℕ) (i : ℕ) (h : i < length sems) where
  suma-signalize : suma (signalize sems i) ≡ suma sems + 1
  unfolding signalize
  suma-signalize = omega (arith, suma-set sems i (get_or sems i 0 + 1))

  length-signalize : length (signalize sems i) ≡ length sems
  unfolding signalize
  length-signalize = length-set sems i (get_or sems i 0 + 1)

  -- With no turn in the semaphores, the one that is given is the only one.
  get_or-signalize : suma sems ≡ 0 → (j : ℕ) → 0 < get_or (signalize sems i) j 0 → j ≡ i
  unfolding signalize
  get_or-signalize z j p =
      ground (arith, get_or-set sems i j (get_or sems i 0 + 1) 0, get_or-le-suma sems j)

module _ {ℓ} {T : Type ℓ} (c : CintaPrincipal T) where
  -- A turn that nobody has goes to consumer `i`, who needs a piece unless he is the first.
  signalize_consumidor-EsTurno :
      (i : ℕ)
      → i < length c.semaforo_consumidores
      → length c.semaforo_consumidores ≡ c.cantidad_consumidores
      → suma c.semaforo_consumidores ≡ 0
      → c.consumidor_esperando ≡ 0
      → (0 < i → 0 < c.cantidad_elementos)
      → EsTurno (signalize_consumidor i c) 0
  unfolding signalize_consumidor
  signalize_consumidor-EsTurno i h hl z e p = record {
    length_semaforo = omega (arith, length-signalize c.semaforo_consumidores i h);
    hay_consumidor = omega arith;
    uno = omega (arith, suma-signalize c.semaforo_consumidores i h);
    dormida = λ d. absurd (omega arith);
    leida = λ d. absurd (omega arith);
    otros = λ j hj d. p (omega (arith, get_or-signalize c.semaforo_consumidores i h z j d));
  }

  pub avanzar_cinta-EsTurno :
      (id_consumidor : ℕ) → EsTurno c 1 → EsTurno (avanzar_cinta id_consumidor c) 0
  unfolding avanzar_cinta
  avanzar_cinta-EsTurno id_consumidor t =
      elim (Bool-cases (ltb id_consumidor c.cantidad_consumidores)) [
        | inl next ↦ rw next (
            signalize_consumidor-EsTurno id_consumidor (ground (arith, t.length_semaforo))
              t.length_semaforo (omega (arith, t.uno)) (omega (arith, t.uno))
              (λ p. t.leida (omega arith)))
        | inr last ↦ rw last (
            signalize_consumidor-EsTurno 0 (omega (arith, t.length_semaforo, t.hay_consumidor))
              t.length_semaforo (omega (arith, t.uno)) (omega (arith, t.uno))
              (λ p. t.leida (omega arith)))
      ]

module _ {ℓ} {T : Type ℓ} (c : CintaPrincipal T) where
  -- A piece that is placed on an empty belt wakes the first consumer, if the turn sleeps.
  pub colocar-EsTurno : (x : T) (n : ℕ) → EsTurno c n → EsTurno (colocar x c) n
  unfolding colocar
  colocar-EsTurno x n t = elim (Bool-cases (c.cantidad_elementos + 1 == 1)) [
    | inl first ↦ elim (Bool-cases (ltb 0 c.consumidor_esperando)) [
      | inl asleep ↦
          rw (first, asleep)
            (subst (EsTurno (signalize_consumidor 0 _)) {x = 0}
              (omega (arith, ltb→lt 0 c.consumidor_esperando asleep, t.uno))
              (signalize_consumidor-EsTurno _ 0 (omega (arith, t.length_semaforo, t.hay_consumidor))
                t.length_semaforo (omega (arith, ltb→lt 0 c.consumidor_esperando asleep, t.uno))
                refl (λ d. omega arith)))
      | inr awake ↦
          rw (first, awake)
            (record {
              length_semaforo = t.length_semaforo;
              hay_consumidor = t.hay_consumidor;
              uno = t.uno;
              dormida = λ d. absurd (ground arith);
              leida = λ d. omega arith;
              otros = λ j hj d. omega arith;
            })
    ]
    | inr later ↦ rw later (record {
      length_semaforo = t.length_semaforo;
      hay_consumidor = t.hay_consumidor;
      uno = t.uno;
      dormida = λ d. absurd (ground (arith, t.dormida d));
      leida = λ d. omega arith;
      otros = λ j hj d. omega arith;
    })
  ]

  quitar-fields :
      let c' = quitar c in
      (c'.cantidad_elementos ≡ c.cantidad_elementos - 1)
      × (c'.cantidad_consumidores ≡ c.cantidad_consumidores)
      × (c'.consumidor_esperando ≡ c.consumidor_esperando)
      × (c'.semaforo_consumidores ≡ c.semaforo_consumidores)
  unfolding quitar
  quitar-fields = ground arith

  -- After the piece at the head is gone the turn goes to the first consumer, or sleeps.
  pub extraer_elemento-EsTurno : EsTurno c 1 → EsTurno (extraer_elemento c) 0
  unfolding extraer_elemento ceder_turno
  extraer_elemento-EsTurno t =
      let f = quitar-fields in
      elim (Bool-cases ((quitar c).cantidad_elementos == 0)) [
        | inl vacia ↦ rw vacia (record {
          length_semaforo = rw (f.3, f.1) t.length_semaforo;
          hay_consumidor = omega (arith, f.1, t.hay_consumidor);
          uno = rw f.3 (omega (arith, t.uno));
          dormida = λ d. ground arith;
          leida = λ d. absurd (omega arith);
          otros = λ j hj d. absurd (
              omega (
                arith,
                ap (λ l. get_or l j 0) f.3,
                get_or-le-suma c.semaforo_consumidores j,
                t.uno,
              ));
        })
        | inr hay ↦ rw hay (
            signalize_consumidor-EsTurno (quitar c) 0
              (rw f.3 (omega (arith, t.length_semaforo, t.hay_consumidor)))
              (rw (f.3, f.1) t.length_semaforo) (rw f.3 (omega (arith, t.uno)))
              (omega (arith, f.2, t.uno)) (λ d. absurd (omega arith)))
      ]

module _ {ℓ} {T : Type ℓ} (c : CintaPrincipal T) where
  -- The turn of the consumers is no matter of the producers.
  pub EsTurno-productores :
      (l : Lado) {n : ℕ} → EsTurno c n → EsTurno (record c { productores = l }) n
  EsTurno-productores l t = record {
    length_semaforo = t.length_semaforo;
    hay_consumidor = t.hay_consumidor;
    uno = t.uno;
    dormida = t.dormida;
    leida = t.leida;
    otros = t.otros;
  }

  -- The one turn is taken: no semaphore is up any more, and nobody held it.
  pub tomado :
      (i n : ℕ) {sem : List ℕ}
      → i < c.cantidad_consumidores
      → EsTurno c n
      → wait_on c.semaforo_consumidores i ≡ some sem
      → (suma sem ≡ 0)
        × (n ≡ 0)
        × (c.consumidor_esperando ≡ 0)
        × (length sem ≡ c.cantidad_consumidores)
  tomado i n h t w =
      let (up, eq) = wait_on-eq-some c.semaforo_consumidores i w in
      let le = get_or-le-suma c.semaforo_consumidores i in
      let s = ap suma eq in
      let l = ap length eq in
      let k =
        suma-set c.semaforo_consumidores i (get_or c.semaforo_consumidores i 0 - 1)
          (omega (arith, t.length_semaforo)) in
      let m = length-set c.semaforo_consumidores i (get_or c.semaforo_consumidores i 0 - 1) in
      (
        omega (arith, t.uno),
        omega (arith, t.uno),
        omega (arith, t.uno),
        omega (arith, t.length_semaforo),
      )

  -- The consumer that has just taken the turn: he holds it, if there is a piece, and else it sleeps.
  pub leer_con_lock-EsTurno :
      (nulo : T)
      → length c.semaforo_consumidores ≡ c.cantidad_consumidores
      → 0 < c.cantidad_consumidores
      → suma c.semaforo_consumidores ≡ 0
      → c.consumidor_esperando ≡ 0
      → EsTurno (leer_con_lock nulo c).0 (length (lista (leer_con_lock nulo c).1))
  unfolding leer_con_lock
  leer_con_lock-EsTurno nulo hl hay z e = elim (Bool-cases (c.cantidad_elementos == 0)) [
    | inl vacia ↦
        let p : ltb 0 c.cantidad_elementos ≡ false = ground arith in
        rw (vacia, p)
          (record {
            length_semaforo = hl;
            hay_consumidor = hay;
            uno = omega arith;
            dormida = λ d. ground arith;
            leida = λ d. absurd (omega arith);
            otros = λ i hi d. absurd (omega (arith, get_or-le-suma c.semaforo_consumidores i));
          })
    | inr con_piezas ↦
        let p : ltb 0 c.cantidad_elementos ≡ true = ground arith in
        rw (con_piezas, p)
          (record {
            length_semaforo = hl;
            hay_consumidor = hay;
            uno = omega arith;
            dormida = λ d. absurd (omega arith);
            leida = λ d. ground arith;
            otros = λ i hi d. absurd (omega (arith, get_or-le-suma c.semaforo_consumidores i));
          })
  ]
