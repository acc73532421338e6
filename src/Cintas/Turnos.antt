-- ===== src/Cintas/Turnos.antt =====
-- The turns of one side of a belt: each user has a binary semaphore and a flag that says that he
-- sleeps. Between two passes of the loops exactly one of the two is up.
use aeropuerto.Base.{
  ℕ, zero, suc, ◌+◌, ◌-◌, ◌≤◌, ◌<◌, ◌≡◌, ◌≢◌, refl, ap, subst, none, some, arith, dec_lt, length,
  get_or, set, length-set, get_or-set, get_or-above, set-set_self, set-get_or, length-replicate,
  get_or-replicate, get_or-replicate_self, wait_on, signalize, Bool-cases, inl, inr, ltb,
}
use aeropuerto.Cintas.Lado.{
  Lado, inicial, esperar_turno, dar_turno, dormir, despertar_uno, despertar_desde, despertar,
}

-- One of the two is up for every user.
pub record Parejas (l : Lado) : Type 0 where
  pub length_semaforo : length l.semaforo ≡ l.cantidad
  pub length_ids : length l.ids ≡ l.cantidad
  pub uno : (j : ℕ) → j < l.cantidad → get_or l.semaforo j 0 + get_or l.ids j 0 ≡ 1

-- Besides, whoever sleeps is counted, and has a reason, `Motivo`.
pub record Turnos (l : Lado) (Motivo : Type 0) : Type 0 where
  pub parejas : Parejas l
  pub dormido : (j : ℕ) → get_or l.ids j 0 ≡ 1 → (0 < l.esperando) × Motivo

pub Turnos-motivo :
    {l : Lado} {Motivo Otro : Type 0} → (Motivo → Otro) → Turnos l Motivo → Turnos l Otro
Turnos-motivo f t = record {
  parejas = t.parejas;
  dormido = λ j e. ((t.dormido j e).0, f (t.dormido j e).1);
}

pub inicial-Turnos : (n : ℕ) {Motivo : Type 0} → Turnos (inicial n) Motivo
inicial-Turnos n = record {
  parejas = record {
    length_semaforo = length-replicate n 1;
    length_ids = length-replicate n 0;
    uno = λ j h.
        omega (arith, get_or-replicate {A = ℕ} n j 1 0 h, get_or-replicate_self {A = ℕ} n j 0);
  };
  dormido = λ j e. absurd (omega (arith, get_or-replicate_self {A = ℕ} n j 0));
}

pub esperar_turno-eq-some :
    (i : ℕ) (l : Lado) {l' : Lado}
    → esperar_turno i l ≡ some l'
    → (0 < get_or l.semaforo i 0)
      × (l' ≡ record l { semaforo = set l.semaforo i (get_or l.semaforo i 0 - 1) })
unfolding esperar_turno wait_on
esperar_turno-eq-some i l h = ground arith

-- Whoever took his turn and gives it back leaves the side as it was.
dar_turno-esperar_turno :
    (i : ℕ) (l : Lado) {l' : Lado}
    → i < length l.semaforo
    → esperar_turno i l ≡ some l'
    → dar_turno i l' ≡ l
unfolding dar_turno signalize
dar_turno-esperar_turno i l h w =
    rw ((esperar_turno-eq-some i l w).1, dar_turno)
      (ground (
        arith,
        esperar_turno-eq-some i l w,
        get_or-set l.semaforo i i (get_or l.semaforo i 0 - 1) 0,
        set-set_self l.semaforo i (get_or l.semaforo i 0 - 1) (get_or l.semaforo i 0),
        set-get_or l.semaforo i 0,
      ))

pub cantidad-dormir : (i : ℕ) (l : Lado) → (dormir i l).cantidad ≡ l.cantidad
unfolding dormir
cantidad-dormir i l = refl

pub cantidad-dar_turno : (i : ℕ) (l : Lado) → (dar_turno i l).cantidad ≡ l.cantidad
unfolding dar_turno
cantidad-dar_turno i l = refl

pub cantidad-esperar_turno :
    (i : ℕ) (l : Lado) {l' : Lado} → esperar_turno i l ≡ some l' → l'.cantidad ≡ l.cantidad
cantidad-esperar_turno i l w = ap (λ k. k.cantidad) (esperar_turno-eq-some i l w).1

pub dar_turno-Turnos :
    (i : ℕ) (l : Lado) {l' : Lado} {Motivo : Type 0}
    → i < l.cantidad
    → esperar_turno i l ≡ some l'
    → Turnos l Motivo
    → Turnos (dar_turno i l') Motivo
dar_turno-Turnos i l h w t =
    rw (dar_turno-esperar_turno i l (omega (arith, t.parejas.length_semaforo)) w) t

-- The turn is taken and not given back: its owner sleeps, with a reason.
pub dormir-Turnos :
    (i : ℕ) (l : Lado) {l' : Lado} {Motivo : Type 0}
    → i < l.cantidad
    → Motivo
    → esperar_turno i l ≡ some l'
    → Turnos l Motivo
    → Turnos (dormir i l') Motivo
unfolding dormir
dormir-Turnos i l h m w t = rw ((esperar_turno-eq-some i l w).1) (record {
  parejas = record {
    length_semaforo =
        omega
          (arith, length-set l.semaforo i (get_or l.semaforo i 0 - 1), t.parejas.length_semaforo);
    length_ids = omega (arith, length-set l.ids i 1, t.parejas.length_ids);
    uno = λ j hj. ground (
      arith,
      get_or-set l.semaforo i j (get_or l.semaforo i 0 - 1) 0,
      get_or-set l.ids i j 1 0,
      esperar_turno-eq-some i l w,
      t.parejas.length_semaforo,
      t.parejas.length_ids,
      t.parejas.uno j,
      t.parejas.uno i h,
    );
  };
  dormido = λ j e. (omega arith, m);
})

-- Where nobody has a reason to sleep, nobody has to wait for his turn.
pub esperar_turno-ne-none :
    (i : ℕ) (l : Lado) {Motivo : Type 0}
    → i < l.cantidad
    → ¬ Motivo
    → Turnos l Motivo
    → esperar_turno i l ≢ none
unfolding esperar_turno wait_on
esperar_turno-ne-none i l h m t e = m (t.dormido i (ground (arith, t.parejas.uno i h))).1

cantidad-despertar_uno : (i : ℕ) (l : Lado) → (despertar_uno i l).cantidad ≡ l.cantidad
unfolding despertar_uno
cantidad-despertar_uno i l = ground arith

pub cantidad-despertar_desde :
    (rounds i : ℕ) (l : Lado) → (despertar_desde rounds i l).cantidad ≡ l.cantidad
unfolding despertar_desde
cantidad-despertar_desde zero i l = refl
cantidad-despertar_desde (suc rounds) i l =
    omega (
      arith,
      cantidad-despertar_desde rounds (suc i) (despertar_uno i l),
      cantidad-despertar_uno i l,
    )

pub cantidad-despertar : (l : Lado) → (despertar l).cantidad ≡ l.cantidad
unfolding despertar
cantidad-despertar l = ground (arith, cantidad-despertar_desde l.cantidad 0 l)

despertar_uno-Parejas :
    (i : ℕ) (l : Lado) → i < l.cantidad → Parejas l → Parejas (despertar_uno i l)
unfolding despertar_uno signalize
despertar_uno-Parejas i l h p = record {
  length_semaforo =
      ground (arith, p.length_semaforo, length-set l.semaforo i (get_or l.semaforo i 0 + 1));
  length_ids = ground (arith, p.length_ids, length-set l.ids i 0);
  uno = λ j hj. ground (
    arith,
    p.length_semaforo,
    p.length_ids,
    p.uno j,
    p.uno i h,
    get_or-set l.semaforo i j (get_or l.semaforo i 0 + 1) 0,
    get_or-set l.ids i j 0 0,
  );
}

-- After its round user `i` is awake.
despertar_uno_self : (i : ℕ) (l : Lado) → i < length l.ids → get_or (despertar_uno i l).ids i 0 ≢ 1
unfolding despertar_uno
despertar_uno_self i l h = ground (arith, get_or-set l.ids i i 0 0)

-- Nobody falls asleep by a round.
despertar_uno_mono :
    (i j : ℕ) (l : Lado)
    → i < length l.ids
    → get_or l.ids j 0 ≢ 1
    → get_or (despertar_uno i l).ids j 0 ≢ 1
unfolding despertar_uno
despertar_uno_mono i j l h d = ground (arith, get_or-set l.ids i j 0 0)

-- What the loop has done from round `i` on.
record Despierta (rounds i : ℕ) (l l' : Lado) : Type 0 where
  parejas : Parejas l'
  hechos : (j : ℕ) → i ≤ j → j < i + rounds → get_or l'.ids j 0 ≢ 1
  otros : (j : ℕ) → get_or l.ids j 0 ≢ 1 → get_or l'.ids j 0 ≢ 1

Despierta-suc :
    {rounds i : ℕ} {l l' : Lado}
    → i < length l.ids
    → Despierta rounds (suc i) (despertar_uno i l) l'
    → Despierta (suc rounds) i l l'
Despierta-suc {i = i} {l = l} h rest = record {
  parejas = rest.parejas;
  hechos = λ j a b. elim (dec_lt i j) [
    | yes lt ↦ rest.hechos j lt (omega arith)
    | no ge ↦ rest.otros j (
        subst (λ k. get_or (despertar_uno i l).ids k 0 ≢ 1) {x = i} (omega arith)
          (despertar_uno_self i l h))
  ];
  otros = λ j d. rest.otros j (despertar_uno_mono i j l h d);
}

despertar_desde-Despierta :
    (rounds i : ℕ) (l : Lado)
    → i + rounds ≤ l.cantidad
    → Parejas l
    → Despierta rounds i l (despertar_desde rounds i l)
unfolding despertar_desde
despertar_desde-Despierta zero i l h p = record {
  parejas = p;
  hechos = λ j a b. absurd (omega arith);
  otros = λ j d. d;
}
despertar_desde-Despierta (suc rounds) i l h p = Despierta-suc (omega (arith, p.length_ids)) (
    despertar_desde-Despierta rounds (suc i) (despertar_uno i l)
      (omega (arith, cantidad-despertar_uno i l)) (despertar_uno-Parejas i l (omega arith) p))

-- `despertar` leaves nobody asleep, so the turns are in order whatever the reason is.
pub despertar-Turnos :
    (l : Lado) {Motivo Otro : Type 0} → Turnos l Motivo → Turnos (despertar l) Otro
unfolding despertar
despertar-Turnos l t = elim (Bool-cases (ltb 0 l.esperando)) [
  | inl some_asleep ↦
      let d = despertar_desde-Despierta l.cantidad 0 l (omega arith) t.parejas in
      rw some_asleep (record {
        parejas = record {
          length_semaforo = d.parejas.length_semaforo;
          length_ids = d.parejas.length_ids;
          uno = d.parejas.uno;
        };
        dormido = λ j e. absurd (elim (dec_lt j l.cantidad) [
          | yes inside ↦ d.hechos j (omega arith) (omega arith) e
          | no outside ↦ omega (
            arith,
            get_or-above (despertar_desde l.cantidad 0 l).ids j 0,
            d.parejas.length_ids,
            cantidad-despertar_desde l.cantidad 0 l,
          )
        ]);
      })
  | inr nobody ↦
      rw nobody (record {
        parejas = t.parejas;
        dormido = λ j e. absurd (ground (arith, (t.dormido j e).0));
      })
]
