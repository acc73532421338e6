-- ===== src/AnilloDeBrokers/Nodo/Numeros.antt =====
-- How the hosts of a ring get their numbers.
use aeropuerto.Base.{
  ℕ, suc, ◌+◌, ◌≤◌, List, [], ◌∷◌, ◌++◌, append_assoc, true, false, Option, none, some, ◌≡◌, ◌∙◌,
  refl, ap, ◌>>=◌, leb, length, drop, arith,
}
use aeropuerto.Init.Decimal.{decimal, valor_desde-decimal, contar_cifras-decimal}
use aeropuerto.Transferencia.{data_size, memcpy}
use aeropuerto.Transferencia.Copia.{take_all}
use aeropuerto.AnilloDeBrokers.{Mensaje, group_discover, sprintf_numero}
use aeropuerto.AnilloDeBrokers.Textos.{sscanf_numero}
use aeropuerto.AnilloDeBrokers.Nodo.{
  Nodo, recibir_grupo, actualizar_numero_de_nodo, recv_token, procesar_mensaje, atender, vuelta,
}

sprintf_numero_lem :
    (n : ℕ) (datos : List ℕ)
    → sprintf_numero n datos ≡ decimal n ++ 0 ∷ drop (0 + length (decimal n ++ 0 ∷ [])) datos
sprintf_numero_lem n datos =
    let texto = decimal n ++ 0 ∷ [] in
    let cola = drop (0 + length texto) datos in
    ap (λ t. t ++ cola) (take_all (length texto) texto (omega arith))
    ∙ append_assoc (decimal n) (0 ∷ []) cola

-- What is read is the number that was printed.
sscanf_numero-sprintf_numero :
    (n : ℕ) (datos : List ℕ) (anterior : ℕ) → sscanf_numero (sprintf_numero n datos) anterior ≡ n
sscanf_numero-sprintf_numero n datos anterior =
    let cola = drop (0 + length (decimal n ++ 0 ∷ [])) datos in
    ap (λ t. sscanf_numero t anterior) (sprintf_numero_lem n datos)
    ∙ rw (contar_cifras-decimal n (0 ∷ cola)) (valor_desde-decimal n 0 cola refl)

abbrev pub NoLideres : List Nodo → Type 0
NoLideres [] = Unit {0}
NoLideres (n ∷ ns) = (n.receptor.es_leader ≡ false) × NoLideres ns

-- `n + 1`, `n + 2` and so on.
abbrev pub NumeradosDesde : ℕ → List Nodo → Type 0
NumeradosDesde n [] = Unit {0}
NumeradosDesde n (s ∷ ns) = (s.receptor.numero_de_nodo ≡ n + 1) × NumeradosDesde (n + 1) ns

-- The message is read as `n`.
record Lee (n : ℕ) (m : Mensaje) : Type 0 where
  tipo : m.tipo ≡ group_discover
  corto : m.cantidad_bytes_total ≤ data_size
  numero : (anterior : ℕ) → sscanf_numero m.data_bytes anterior ≡ n

-- The hosts have numbers from `n + 1` on, and the message that comes back is read as the last of them.
abbrev pub TrasVuelta : (n : ℕ) → List Nodo → Option (List Nodo × List Mensaje) → Type 0
TrasVuelta n ns none = ⊥
TrasVuelta n ns (some (ns', ms)) =
    (length ns' ≡ length ns)
    × NumeradosDesde n ns'
    × (m : Mensaje) × (ms ≡ m ∷ [])
    × ((anterior : ℕ) → sscanf_numero m.data_bytes anterior ≡ n + length ns)

TrasVuelta-cons :
    (n : ℕ) (s s' : Nodo) (ns : List Nodo) (x : Option (List Nodo × List Mensaje))
    → s'.receptor.numero_de_nodo ≡ n + 1
    → TrasVuelta (n + 1) ns x
    → TrasVuelta n (s ∷ ns) (x >>= λ q. some (s' ∷ q.0, q.1))
TrasVuelta-cons n s s' ns none e v = v
TrasVuelta-cons n s s' ns (some (ns', ms)) e (l, ks, m, u, r) =
    (ap suc l, (e, ks), m, u, λ anterior. r anterior ∙ omega arith)

module _ (inicial : List ℕ → List ℕ) (entero : ℕ) where
  abbrev numerado : Mensaje → Nodo → Nodo
  numerado m s = record s {
    data_group = memcpy s.data_group 0 m.data_bytes data_size;
    cantidad_recibida_grupo = 0;
    receptor = record s.receptor {
      numero_de_nodo = sscanf_numero m.data_bytes s.receptor.numero_de_nodo + 1;
    };
  }

  abbrev siguiente : Mensaje → Nodo → Mensaje
  siguiente m s = record m {
    data_bytes =
        sprintf_numero (sscanf_numero m.data_bytes s.receptor.numero_de_nodo + 1) m.data_bytes;
  }

  atender-group_discover :
      (m : Mensaje) (s : Nodo)
      → m.tipo ≡ group_discover
      → m.cantidad_bytes_total ≤ data_size
      → s.receptor.es_leader ≡ false
      → atender inicial entero m s ≡ some (numerado m s, siguiente m s ∷ [])
  unfolding atender recv_token procesar_mensaje recibir_grupo actualizar_numero_de_nodo
  atender-group_discover m s t c l =
      let e : leb m.cantidad_bytes_total (s.cantidad_recibida_grupo + data_size) ≡ true =
        ground arith in
      rw (atender, t, e, l) refl

  Lee-siguiente : (n : ℕ) (m : Mensaje) (s : Nodo) → Lee n m → Lee (n + 1) (siguiente m s)
  Lee-siguiente n m s v = record {
    tipo = v.tipo;
    corto = v.corto;
    numero = λ anterior.
        sscanf_numero-sprintf_numero _ m.data_bytes anterior
        ∙ ap (λ k. k + 1) (v.numero s.receptor.numero_de_nodo);
  }

  numerar :
      (ns : List Nodo) (n : ℕ) (m : Mensaje)
      → Lee n m
      → NoLideres ns
      → TrasVuelta n ns (vuelta inicial entero ns (m ∷ []))
  numerar [] n m v l = (refl, tt, m, refl, λ anterior. v.numero anterior ∙ omega arith)
  numerar (s ∷ ns) n m v (l, ls) =
      let a = atender-group_discover m s v.tipo v.corto l in
      let q = numerar ns (n + 1) (siguiente m s) (Lee-siguiente n m s v) ls in
      rw a (
        TrasVuelta-cons n s (numerado m s) ns (vuelta inicial entero ns (siguiente m s ∷ []))
          (ap (λ k. k + 1) (v.numero s.receptor.numero_de_nodo)) q)

  -- A message of the kind GROUP_DISCOVER with the number `n`, as the leader sends it with 1, gives the
  -- hosts that it passes, none of them a leader, the numbers from `n + 1` on, in their order, and what
  -- comes back to the leader is read as the number of the last.
  pub vuelta-NumeradosDesde :
      (ns : List Nodo) (n : ℕ) (datos : List ℕ) (m : Mensaje)
      → m.tipo ≡ group_discover
      → m.cantidad_bytes_total ≤ data_size
      → m.data_bytes ≡ sprintf_numero n datos
      → NoLideres ns
      → TrasVuelta n ns (vuelta inicial entero ns (m ∷ []))
  vuelta-NumeradosDesde ns n datos m t c d l =
      numerar ns n m
        (record {
          tipo = t;
          corto = c;
          numero = λ anterior.
              ap (λ x. sscanf_numero x anterior) d ∙ sscanf_numero-sprintf_numero n datos anterior;
        })
        l
