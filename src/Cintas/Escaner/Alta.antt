-- ===== src/Cintas/Escaner/Alta.antt =====
-- Scanners that come: the constructor of a scanner's `CintaScanner`, and `inicializar_estructuras`. The
-- count and the numbers of the active scanners are left out: nothing reads them. The destructor is not
-- modelled: it writes the control memory without its lock.
use aeropuerto.Base.{
  ℕ, ◌+◌, ◌<◌, ◌≡◌, refl, sym, Bool, true, false, ◌==◌, if◌then◌else◌, arith, Bool-cases, inl, inr,
  ==_ne, true_ne_false, replicate, length-replicate,
}
use aeropuerto.Cintas.Escaner.{
  max_scanners, EstadoCinta, inactiva, con_lugar, llena, CintaScanner, en,
}
use aeropuerto.Cintas.Escaner.Invariante.{Concuerda, EsValida}
use aeropuerto.Cintas.Escaner.Reparto.{en-todas}

abbrev pub es_inactiva : EstadoCinta → Bool
es_inactiva inactiva = true
es_inactiva con_lugar = false
es_inactiva llena = false

module _ {ℓ} {T : Type ℓ} where
  -- `inicializar_estructuras`, with the tokens of the semaphores.
  abbrev pub inicializar_estructuras : (tamanio_vectores : ℕ) (nulo : T) → CintaScanner T
  inicializar_estructuras tamanio_vectores nulo = record {
    cintas = λ i. record {
      tamanio_vector = tamanio_vectores;
      posicion_libre = 0;
      posicion_ocupada = 0;
      cantidad_elementos = 0;
      consumidor_esperando = 0;
      semaforo = 1;
      vector_elementos = replicate tamanio_vectores nulo;
    };
    cinta_llena = λ i. inactiva;
    productor_esperando = 0;
    semaforo_productor = 1;
    proxima_cinta_a_colocar = 0;
    eligio = false;
  }

  -- What the constructor of scanner `n` does under the lock of the control memory.
  unfoldable pub activar : ℕ → CintaScanner T → CintaScanner T
  activar n s =
      let s' : CintaScanner T = record s {
        cinta_llena =
            (if es_inactiva (s.cinta_llena n) then en s.cinta_llena n con_lugar else s.cinta_llena);
      } in
      if s.productor_esperando == 1
      then record s' { productor_esperando = 0; semaforo_productor = s.semaforo_productor + 1 }
      else s'

  -- The memory starts in order.
  pub inicializar_estructuras-EsValida :
      (tamanio_vectores : ℕ) (nulo : T)
      → 0 < tamanio_vectores
      → EsValida (inicializar_estructuras tamanio_vectores nulo)
  inicializar_estructuras-EsValida tamanio_vectores nulo h = record {
    cintas = λ k hk. record {
      anillo = record {
        entra = omega (arith, length-replicate tamanio_vectores nulo);
        ocupada_dentro = h;
        cabe = omega arith;
        siguiente = omega arith;
      };
      uno = refl;
      dormido = λ d. refl;
    };
    estados = λ k hk. record {
      lugar = λ d. absurd (true_ne_false (sym d));
      colmada = λ d. absurd (true_ne_false (sym d));
    };
    productor = refl;
    sin_lugar = λ d k hk. refl;
    elegida = λ d. absurd (true_ne_false (sym d));
    dentro = omega arith;
  }

  module _ (s : CintaScanner T) (v : EsValida s) (n : ℕ) where
    alta-Concuerda :
        (es_inactiva (s.cinta_llena n) ≡ true
          → (s.cintas n).cantidad_elementos < (s.cintas n).tamanio_vector)
        → (k : ℕ) → k < max_scanners
        → Concuerda
            ((if es_inactiva (s.cinta_llena n) then en s.cinta_llena n con_lugar else s.cinta_llena)
              k)
            (s.cintas k)
    alta-Concuerda room k hk = elim (Bool-cases (es_inactiva (s.cinta_llena n))) [
      | inl off ↦ rw off (
          en-todas (λ i e. Concuerda e (s.cintas i)) s.cinta_llena n con_lugar
            (record { lugar = λ d. room off; colmada = λ d. absurd (true_ne_false (sym d)) }) k
            (v.estados k hk))
      | inr on ↦ rw on (v.estados k hk)
    ]

    -- A scanner that starts, on a belt with room if its belt was not in use, keeps the invariant, and the producer is awake. The
    -- constructor itself does not look whether the belt has room.
    pub activar-EsValida :
        (es_inactiva (s.cinta_llena n) ≡ true
          → (s.cintas n).cantidad_elementos < (s.cintas n).tamanio_vector)
        → EsValida (activar n s)
          × ¬ ((activar n s).productor_esperando ≡ 1)
          × ((activar n s).cintas ≡ s.cintas)
    unfolding activar
    activar-EsValida room = elim (Bool-cases (s.productor_esperando == 1)) [
      | inl asleep ↦ rw asleep (
        record {
          cintas = v.cintas;
          estados = alta-Concuerda room;
          productor = ground (arith, v.productor);
          sin_lugar = λ d. absurd (omega arith);
          elegida = v.elegida;
          dentro = v.dentro;
        },
        λ d. omega arith,
        refl,
      )
      | inr awake ↦ rw awake (
        record {
          cintas = v.cintas;
          estados = alta-Concuerda room;
          productor = v.productor;
          sin_lugar = λ d. absurd (==_ne _ _ awake d);
          elegida = v.elegida;
          dentro = v.dentro;
        },
        ==_ne _ _ awake,
        refl,
      )
    ]
