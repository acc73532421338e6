-- ===== src/AnilloDeBrokers/Nodo/Vuelta.antt =====
-- The message with which a new host presents itself, on its way round the ring.
use aeropuerto.Base.{ℕ, List, [], ◌∷◌, false, some, ◌≡◌, refl, Bool-cases, inl, inr, if◌then◌else◌}
use aeropuerto.Init.{cmp}
use aeropuerto.AnilloDeBrokers.{Mensaje, initialization, leader_elected}
use aeropuerto.AnilloDeBrokers.Textos.{c_str}
use aeropuerto.AnilloDeBrokers.Nodo.{Nodo, recv_token, procesar_mensaje, atender, vuelta}

-- None of the hosts has the name in the message.
abbrev pub Otros : Mensaje → List Nodo → Type 0
Otros m [] = Unit {0}
Otros m (n ∷ ns) = (cmp n.broker_local (c_str m.data_bytes) ≡ false) × Otros m ns

-- What comes back to the host that presents itself: its own message if there is no leader, the answer
-- of the leader if it is the last of the ring, and nothing else.
abbrev pub respuesta : List Nodo → Mensaje → List Mensaje
respuesta [] m = record m { tipo = leader_elected } ∷ []
respuesta (n ∷ ns) m = []

abbrev pub regreso : List Nodo → Mensaje → List Mensaje
regreso [] m = m ∷ []
regreso (n ∷ ns) m =
    let rest = regreso ns m in if n.receptor.es_leader then respuesta ns m else rest

module _ (inicial : List ℕ → List ℕ) (entero : ℕ) where
  atender-initialization :
      (m : Mensaje) (n : Nodo)
      → m.tipo ≡ initialization
      → cmp n.broker_local (c_str m.data_bytes) ≡ false
      → atender inicial entero m n
        ≡ some (n, (if n.receptor.es_leader then record m { tipo = leader_elected } else m) ∷ [])
  unfolding atender recv_token procesar_mensaje
  atender-initialization m n t c = rw (atender, t, c) refl

  atender-leader_elected :
      (m : Mensaje) (n : Nodo) → m.tipo ≡ leader_elected → atender inicial entero m n ≡ some (n, [])
  unfolding atender recv_token procesar_mensaje
  atender-leader_elected m n t = rw (atender, t) refl

  vuelta-nil : (ns : List Nodo) → vuelta inicial entero ns [] ≡ some (ns, [])
  vuelta-nil [] = refl
  vuelta-nil (n ∷ ns) = rw (vuelta-nil ns) refl

  vuelta-leader_elected :
      (ns : List Nodo) (m : Mensaje)
      → vuelta inicial entero ns (record m { tipo = leader_elected } ∷ [])
        ≡ some (ns, respuesta ns m)
  vuelta-leader_elected [] m = refl
  vuelta-leader_elected (n ∷ ns) m =
      rw (atender-leader_elected (record m { tipo = leader_elected }) n refl, vuelta-nil ns) refl

  -- A host presents itself to the others, whose names differ from its own. Its message comes back to it
  -- exactly if there is no leader among them, and the answer of a leader exactly if the first leader is
  -- the last host of the ring: else nothing comes back, since the host behind the leader drops the
  -- answer. The hosts stay as they are.
  pub vuelta-regreso :
      (ns : List Nodo) (m : Mensaje)
      → m.tipo ≡ initialization
      → Otros m ns
      → vuelta inicial entero ns (m ∷ []) ≡ some (ns, regreso ns m)
  vuelta-regreso [] m t o = refl
  vuelta-regreso (n ∷ ns) m t (c, o) = elim (Bool-cases n.receptor.es_leader) [
    | inl l ↦ rw (atender-initialization m n t c, l, vuelta-leader_elected ns m) refl
    | inr f ↦ rw (atender-initialization m n t c, f, vuelta-regreso ns m t o) refl
  ]
