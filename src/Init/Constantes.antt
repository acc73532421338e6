-- ===== src/Init/Constantes.antt =====
-- `parse_size_t_val` and `parse_int_val` agree: their two chains of names have the same values.
use aeropuerto.Base.{
  ℕ, ◌≡◌, ◌∙◌, refl, sym, ap, ap₂, [], ◌∷◌, Bool, true, false, if◌then◌else◌, length, get_or, arith,
  ◌==◌, ==_iff, Bool-cases, inl, inr, true_ne_false,
}
use aeropuerto.Init.{
  Texto, pos, cmp, Tabla, buscar, contar_cifras, tabla_int, tabla_size_t, parse_int_val,
  parse_size_t_val,
}

pub cmp-eq : (a b : Texto) → cmp a b ≡ true → a ≡ b
cmp-eq [] [] h = refl
cmp-eq [] (y ∷ ys) h = absurd (true_ne_false (sym h))
cmp-eq (x ∷ xs) [] h = absurd (true_ne_false (sym h))
cmp-eq (x ∷ xs) (y ∷ ys) h = elim (Bool-cases (x == y)) [
  | inl e ↦ ap₂ ◌∷◌ ((==_iff x y).0 e) (cmp-eq xs ys (ground arith))
  | inr ne ↦ absurd (ground arith)
]

-- Each name of the first table has its value in the second.
abbrev Contenida : Tabla → Tabla → Type 0
Contenida [] t' = Unit {0}
Contenida ((k, v) ∷ t) t' = (buscar k t' ≡ v) × Contenida t t'

abbrev aparece : Texto → Tabla → Bool
aparece val [] = false
aparece val ((k, v) ∷ t) = let rest = aparece val t in if cmp val k then true else rest

buscar_of_aparece :
    (val : Texto) (t t' : Tabla)
    → Contenida t t'
    → aparece val t ≡ true
    → buscar val t ≡ buscar val t'
buscar_of_aparece val [] t' c h = absurd (true_ne_false (sym h))
buscar_of_aparece val ((k, v) ∷ t) t' (e, c) h = elim (Bool-cases (cmp val k)) [
  | inl found ↦ rw found (sym e ∙ ap (λ s. buscar s t') (sym (cmp-eq val k found)))
  | inr other ↦ rw other (buscar_of_aparece val t t' c (ground arith))
]

buscar_of_no_aparece : (val : Texto) (t : Tabla) → aparece val t ≡ false → buscar val t ≡ 0
buscar_of_no_aparece val [] h = refl
buscar_of_no_aparece val ((k, v) ∷ t) h = elim (Bool-cases (cmp val k)) [
  | inl found ↦ absurd (ground arith)
  | inr other ↦ rw other (buscar_of_no_aparece val t (ground arith))
]

buscar_eq :
    (val : Texto) (t t' : Tabla) → Contenida t t' → Contenida t' t → buscar val t ≡ buscar val t'
buscar_eq val t t' c c' = elim (Bool-cases (aparece val t)) [
  | inl here ↦ buscar_of_aparece val t t' c here
  | inr not_here ↦ elim (Bool-cases (aparece val t')) [
    | inl there ↦ sym (buscar_of_aparece val t' t c' there)
    | inr not_there ↦
        buscar_of_no_aparece val t not_here ∙ sym (buscar_of_no_aparece val t' not_there)
  ]
]

module _ (sizeof_int sizeof_equipaje : ℕ) where
  tabla_int-Contenida :
      Contenida (tabla_int sizeof_int sizeof_equipaje) (tabla_size_t sizeof_int sizeof_equipaje)
  tabla_int-Contenida = (
    refl,
    (
      refl,
      (
        refl,
        (
          refl,
          (
            refl,
            (
              refl,
              (
                refl,
                (
                  refl,
                  (
                    refl,
                    (
                      refl,
                      (
                        refl,
                        (
                          refl,
                          (
                            refl,
                            (
                              refl,
                              (
                                refl,
                                (
                                  refl,
                                  (
                                    refl,
                                    (
                                      refl,
                                      (
                                        refl,
                                        (
                                          refl,
                                          (
                                            refl,
                                            (
                                              refl,
                                              (
                                                refl,
                                                (
                                                  refl,
                                                  (
                                                    refl,
                                                    (
                                                      refl,
                                                      (
                                                        refl,
                                                        (refl, (refl, (refl, (refl, (refl, tt))))),
                                                      ),
                                                    ),
                                                  ),
                                                ),
                                              ),
                                            ),
                                          ),
                                        ),
                                      ),
                                    ),
                                  ),
                                ),
                              ),
                            ),
                          ),
                        ),
                      ),
                    ),
                  ),
                ),
              ),
            ),
          ),
        ),
      ),
    ),
  )

  tabla_size_t-Contenida :
      Contenida (tabla_size_t sizeof_int sizeof_equipaje) (tabla_int sizeof_int sizeof_equipaje)
  tabla_size_t-Contenida = (
    refl,
    (
      refl,
      (
        refl,
        (
          refl,
          (
            refl,
            (
              refl,
              (
                refl,
                (
                  refl,
                  (
                    refl,
                    (
                      refl,
                      (
                        refl,
                        (
                          refl,
                          (
                            refl,
                            (
                              refl,
                              (
                                refl,
                                (
                                  refl,
                                  (
                                    refl,
                                    (
                                      refl,
                                      (
                                        refl,
                                        (
                                          refl,
                                          (
                                            refl,
                                            (
                                              refl,
                                              (
                                                refl,
                                                (
                                                  refl,
                                                  (
                                                    refl,
                                                    (
                                                      refl,
                                                      (
                                                        refl,
                                                        (refl, (refl, (refl, (refl, (refl, tt))))),
                                                      ),
                                                    ),
                                                  ),
                                                ),
                                              ),
                                            ),
                                          ),
                                        ),
                                      ),
                                    ),
                                  ),
                                ),
                              ),
                            ),
                          ),
                        ),
                      ),
                    ),
                  ),
                ),
              ),
            ),
          ),
        ),
      ),
    ),
  )

  -- On a text that does not begin with a minus sign, a number or a name or neither,
  -- `parse_size_t_val` reads what `parse_int_val` reads.
  pub parse_int_val-parse_size_t_val :
      (val : Texto)
      → ¬ (get_or val 0 0 ≡ 45)
      → parse_int_val sizeof_int sizeof_equipaje val
        ≡ pos (parse_size_t_val sizeof_int sizeof_equipaje val)
  unfolding parse_int_val parse_size_t_val
  parse_int_val-parse_size_t_val [] h = refl
  parse_int_val-parse_size_t_val (c ∷ cs) h =
      let n : (c == 45) ≡ false = ground arith in
      let q =
        buscar_eq (c ∷ cs) (tabla_int sizeof_int sizeof_equipaje)
          (tabla_size_t sizeof_int sizeof_equipaje) tabla_int-Contenida tabla_size_t-Contenida in
      elim (Bool-cases (contar_cifras (c ∷ cs) == length (c ∷ cs))) [
        | inl number ↦ rw (n, number) refl
        | inr name ↦ rw (n, name) (ap pos q)
      ]
