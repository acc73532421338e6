-- ===== src/Cintas/Escaner/Servicio.antt =====
-- What the wake-ups of the producer are for: over runs of the scanners' belts from their first memory,
-- in which scanners start, the producer chooses a belt and places a piece there, and scanners take
-- pieces, in any order. No scanner ends in such a run: the destructor is not modelled.
use aeropuerto.Base.{
  ℕ, ◌<◌, ◌≡◌, ◌∙◌, refl, sym, ap, subst, [], ◌∷◌, ◌++◌, true, false, Option, some, arith,
  Bool-cases, inl, inr, true_ne_false,
}
use aeropuerto.Cintas.Escaner.{
  max_scanners, es_llena, es_llena, CintaScanner, elegir_cinta, colocar, sacar_equipaje,
}
use aeropuerto.Cintas.Escaner.Invariante.{EsValida, equipajes}
use aeropuerto.Cintas.Escaner.Alta.{
  es_inactiva, inicializar_estructuras, inicializar_estructuras-EsValida, activar, activar-EsValida,
}
use aeropuerto.Cintas.Escaner.Eleccion.{elegir_cinta_lem, elegir_cinta_avanza}
use aeropuerto.Cintas.Escaner.Reparto.{colocar_reparte}
use aeropuerto.Cintas.Escaner.Retiro.{sacar_reparte}
use aeropuerto.Cintas.Escaner.Apagada.{
  EsApagada, sacar_equipaje-Igual, sacar-le, elegir_cinta-estados, colocar-EsApagada,
  activar-EsApagada, con_lugar-activa, con_lugar_of_activa,
}

-- The states that a run leads to. The producer chooses a belt only when he does not stand between his
-- two steps, and places a piece only then.
pub data Servicio {ℓ} {T : Type ℓ} (nulo : T) (tamanio_vectores : ℕ) : CintaScanner T → Type ℓ where
  inicio : Servicio nulo tamanio_vectores (inicializar_estructuras tamanio_vectores nulo)
  activa :
      {s : CintaScanner T}
      → Servicio nulo tamanio_vectores s
      → (n : ℕ) → n < max_scanners
      → Servicio nulo tamanio_vectores (activar n s)
  elige :
      {s s' : CintaScanner T}
      → Servicio nulo tamanio_vectores s
      → s.eligio ≡ false
      → elegir_cinta s ≡ some s'
      → Servicio nulo tamanio_vectores s'
  coloca :
      {s : CintaScanner T}
      → Servicio nulo tamanio_vectores s
      → (x : T) → s.eligio ≡ true
      → Servicio nulo tamanio_vectores (colocar x s)
  saca :
      {s s' : CintaScanner T}
      → Servicio nulo tamanio_vectores s
      → (n : ℕ) (elemento : Option T) → n < max_scanners
      → sacar_equipaje nulo n s ≡ some (s', elemento)
      → Servicio nulo tamanio_vectores s'

module _ {ℓ} {T : Type ℓ} (nulo : T) (tamanio_vectores : ℕ) (h : 0 < tamanio_vectores) where
  -- Every run leads to belts in order, whatever the order of the steps.
  Servicio-EsValida :
      {s : CintaScanner T} → Servicio nulo tamanio_vectores s → EsValida s × EsApagada s
  Servicio-EsValida inicio = (
    inicializar_estructuras-EsValida tamanio_vectores nulo h,
    record { vacias = λ k hk e. refl; activa = λ e. absurd (true_ne_false (sym e)) },
  )
  Servicio-EsValida (activa {s = s} t n hn) =
      let (v, a) = Servicio-EsValida t in
      let dentro = (v.cintas n hn).anillo.ocupada_dentro in
      (
        (activar-EsValida s v n (λ e. omega (arith, a.vacias n hn e, dentro))).0,
        activar-EsApagada n s a,
      )
  Servicio-EsValida (elige {s = s} {s' = s'} t libre e) =
      let (v, a) = Servicio-EsValida t in
      let (w, q, con, sin) = elegir_cinta_lem s v libre e in
      let igual = elegir_cinta-estados s e in
      (
        w,
        record {
          vacias = λ k hk off.
              ap (λ f. (f k).cantidad_elementos) q
              ∙ a.vacias k hk (sym (ap (λ f. es_inactiva (f k)) igual) ∙ off);
          activa = λ i.
              ap (λ f. es_inactiva (f s'.proxima_cinta_a_colocar)) igual
              ∙ con_lugar-activa (s.cinta_llena s'.proxima_cinta_a_colocar) (con i);
        },
      )
  Servicio-EsValida (coloca {s = s} t x e) =
      let (v, a) = Servicio-EsValida t in
      ((colocar_reparte nulo x s v e).0, colocar-EsApagada x s e a)
  Servicio-EsValida (saca {s = s} {s' = s'} t n elemento hn e) =
      let (v, a) = Servicio-EsValida t in
      let (igual, donde, proxima) = sacar_equipaje-Igual nulo n s e in
      (
        (sacar_reparte nulo s n v hn e).valida,
        record {
          vacias = λ k hk off.
              omega (arith, sacar-le nulo n s v hn e k, a.vacias k hk (sym (igual k) ∙ off));
          activa = λ i.
              igual s'.proxima_cinta_a_colocar
              ∙ ap (λ p. es_inactiva (s.cinta_llena p)) proxima
              ∙ a.activa (sym donde ∙ i);
        },
      )

  -- No wake-up of the producer is lost: after any run in which no scanner ends, as long as the belt of
  -- some scanner that has started is not full and the producer does not stand between his two steps,
  -- his next step does not wait and chooses a belt, one that is not full, and his piece then goes
  -- behind those that lie there.
  pub Servicio-elegir_avanza :
      {s : CintaScanner T} (x : T) (k : ℕ)
      → Servicio nulo tamanio_vectores s
      → s.eligio ≡ false
      → k < max_scanners
      → es_inactiva (s.cinta_llena k) ≡ false
      → (s.cintas k).cantidad_elementos < (s.cintas k).tamanio_vector
      → (s' : CintaScanner T) × (elegir_cinta s ≡ some s')
        × (s'.eligio ≡ true)
        × let p = s'.proxima_cinta_a_colocar in
          ((s.cintas p).cantidad_elementos < (s.cintas p).tamanio_vector)
          × (equipajes nulo ((colocar x s').cintas p) ≡ equipajes nulo (s.cintas p) ++ x ∷ [])
  Servicio-elegir_avanza {s} x k t libre hk on room =
      let v = (Servicio-EsValida t).0 in
      let no_llena : es_llena (s.cinta_llena k) ≡ false =
        elim (Bool-cases (es_llena (s.cinta_llena k))) [
          | inl full ↦ absurd (omega (arith, (v.estados k hk).colmada full))
          | inr other ↦ other
        ] in
      let (s', e, i) =
        elegir_cinta_avanza s v libre k hk (con_lugar_of_activa (s.cinta_llena k) on no_llena) in
      let (w, q, con, sin) = elegir_cinta_lem s v libre e in
      let p = s'.proxima_cinta_a_colocar in
      (
        s',
        e,
        i,
        (
          subst (λ f. (f p).cantidad_elementos < (f p).tamanio_vector) q (w.elegida i),
          (colocar_reparte nulo x s' w i).1 ∙ ap (λ f. equipajes nulo (f p) ++ x ∷ []) q,
        ),
      )
