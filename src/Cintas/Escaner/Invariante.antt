-- ===== src/Cintas/Escaner/Invariante.antt =====
-- One belt of a scanner, and the control memory over all of them.
use aeropuerto.Base.{
  ℕ, ◌+◌, ◌-◌, ◌<◌, ◌≡◌, ◌∙◌, sym, ap, List, [], ◌∷◌, ◌++◌, true, false, ◌==◌, if◌then◌else◌,
  get_or, arith, Bool-cases, inl, inr,
}
use aeropuerto.Base.Anillo.{
  ventana, EsAnillo, EsAnillo-poner, EsAnillo-sacar, ventana-poner, ventana_of_ne_zero,
}
use aeropuerto.Cintas.Escaner.{
  max_scanners, EstadoCinta, es_con_lugar, es_llena, CintaEscaner, CintaScanner, agregar, quitar,
  ceder,
}

abbrev pub equipajes {ℓ} : {T : Type ℓ} (nulo : T) → CintaEscaner T → List T
equipajes nulo c =
    ventana nulo c.vector_elementos c.tamanio_vector c.posicion_ocupada c.cantidad_elementos

module _ {ℓ} {T : Type ℓ} where
  abbrev pub AnilloDe : CintaEscaner T → Type 0
  AnilloDe c =
      EsAnillo c.vector_elementos c.tamanio_vector c.posicion_libre c.posicion_ocupada
        c.cantidad_elementos

  -- The scanner has his turn, or sleeps on an empty belt.
  pub record EsCinta (c : CintaEscaner T) : Type 0 where
    pub anillo : AnilloDe c
    pub uno : c.semaforo + c.consumidor_esperando ≡ 1
    pub dormido : c.consumidor_esperando ≡ 1 → c.cantidad_elementos ≡ 0

  -- What the control memory says of a belt is true.
  pub record Concuerda (e : EstadoCinta) (c : CintaEscaner T) : Type 0 where
    pub lugar : es_con_lugar e ≡ true → c.cantidad_elementos < c.tamanio_vector
    pub colmada : es_llena e ≡ true → c.cantidad_elementos ≡ c.tamanio_vector

  pub record EsValida (s : CintaScanner T) : Type 0 where
    pub cintas : (k : ℕ) → k < max_scanners → EsCinta (s.cintas k)
    pub estados : (k : ℕ) → k < max_scanners → Concuerda (s.cinta_llena k) (s.cintas k)
    pub productor : s.semaforo_productor + s.productor_esperando + (if s.eligio then 1 else 0) ≡ 1
    pub sin_lugar :
        s.productor_esperando ≡ 1
        → (k : ℕ) → k < max_scanners
        → es_con_lugar (s.cinta_llena k) ≡ false
    pub elegida :
        s.eligio ≡ true
        → (s.cintas s.proxima_cinta_a_colocar).cantidad_elementos
          < (s.cintas s.proxima_cinta_a_colocar).tamanio_vector
    pub dentro : s.proxima_cinta_a_colocar < max_scanners

  module _ (c : CintaEscaner T) where
    pub agregar-fields :
        (x : T)
        → ((agregar x c).cantidad_elementos ≡ c.cantidad_elementos + 1)
          × ((agregar x c).tamanio_vector ≡ c.tamanio_vector)
    unfolding agregar
    agregar-fields x = ground arith

    pub agregar-EsCinta :
        (x : T) → c.cantidad_elementos < c.tamanio_vector → EsCinta c → EsCinta (agregar x c)
    unfolding agregar
    agregar-EsCinta x h v = elim (Bool-cases (c.cantidad_elementos + 1 == 1)) [
      | inl first ↦ elim (Bool-cases (c.consumidor_esperando == 1)) [
        | inl asleep ↦
            rw (first, asleep)
              (record {
                anillo = EsAnillo-poner x h v.anillo;
                uno = ground (arith, v.uno);
                dormido = λ d. absurd (omega arith);
              })
        | inr awake ↦
            rw (first, awake)
              (record {
                anillo = EsAnillo-poner x h v.anillo;
                uno = v.uno;
                dormido = λ d. absurd (ground arith);
              })
      ]
      | inr later ↦ rw later (record {
        anillo = EsAnillo-poner x h v.anillo;
        uno = v.uno;
        dormido = λ d. absurd (ground (arith, v.dormido d));
      })
    ]

    pub equipajes-agregar :
        (nulo x : T)
        → c.cantidad_elementos < c.tamanio_vector
        → EsCinta c
        → equipajes nulo (agregar x c) ≡ equipajes nulo c ++ x ∷ []
    unfolding agregar
    equipajes-agregar nulo x h v = elim (Bool-cases (c.cantidad_elementos + 1 == 1)) [
      | inl first ↦ elim (Bool-cases (c.consumidor_esperando == 1)) [
        | inl asleep ↦ rw (first, asleep) (ventana-poner nulo x h v.anillo)
        | inr awake ↦ rw (first, awake) (ventana-poner nulo x h v.anillo)
      ]
      | inr later ↦ rw later (ventana-poner nulo x h v.anillo)
    ]

    pub ceder-fields :
        ((ceder c).cantidad_elementos ≡ c.cantidad_elementos)
        × ((ceder c).tamanio_vector ≡ c.tamanio_vector)
    unfolding ceder
    ceder-fields = ground arith

    pub ceder-EsCinta : AnilloDe c → c.semaforo + c.consumidor_esperando ≡ 0 → EsCinta (ceder c)
    unfolding ceder
    ceder-EsCinta a z = elim (Bool-cases (c.cantidad_elementos == 0)) [
      | inl vacia ↦ rw vacia (record { anillo = a; uno = omega arith; dormido = λ d. ground arith })
      | inr hay ↦
          rw hay (record { anillo = a; uno = omega arith; dormido = λ d. absurd (omega arith) })
    ]

    pub equipajes-ceder : (nulo : T) → equipajes nulo (ceder c) ≡ equipajes nulo c
    unfolding ceder
    equipajes-ceder nulo = elim (Bool-cases (c.cantidad_elementos == 0)) [
      | inl vacia ↦ rw vacia
      | inr hay ↦ rw hay
    ]

  module _ (c : CintaEscaner T) where
    pub quitar-EsCinta :
        0 < c.cantidad_elementos
        → AnilloDe c
        → c.semaforo + c.consumidor_esperando ≡ 0
        → EsCinta (ceder (quitar c))
    unfolding quitar
    quitar-EsCinta h a z = ceder-EsCinta (quitar c) (EsAnillo-sacar h a) z

    pub equipajes-quitar :
        (nulo : T)
        → 0 < c.cantidad_elementos
        → equipajes nulo c
          ≡ get_or c.vector_elementos c.posicion_ocupada nulo ∷ equipajes nulo (ceder (quitar c))
    unfolding quitar
    equipajes-quitar nulo h =
        ventana_of_ne_zero nulo _ _ _ _ (omega arith)
        ∙ ap (λ l. get_or c.vector_elementos c.posicion_ocupada nulo ∷ l)
            (sym (equipajes-ceder (quitar c) nulo))

    pub quitar-fields :
        ((ceder (quitar c)).cantidad_elementos ≡ c.cantidad_elementos - 1)
        × ((ceder (quitar c)).tamanio_vector ≡ c.tamanio_vector)
    unfolding quitar ceder
    quitar-fields = ground arith
