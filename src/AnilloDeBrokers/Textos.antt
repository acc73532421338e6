-- ===== src/AnilloDeBrokers/Textos.antt =====
-- C strings in the messages of the hosts.
use aeropuerto.Base.{ℕ, ◌+◌, List, [], ◌∷◌, ◌++◌, if◌then◌else◌, ◌==◌, replicate, take, length}
use aeropuerto.Grupo.{Nombre}
use aeropuerto.Init.{contar_cifras, valor_desde}
use aeropuerto.Transferencia.{memcpy}

-- A C string that is stored in a longer array.
abbrev pub c_str : List ℕ → Nombre
c_str [] = []
c_str (c ∷ cs) = let rest = c_str cs in if c == 0 then [] else c ∷ rest

-- `strcpy`.
abbrev pub strcpy : (destino : List ℕ) → Nombre → List ℕ
strcpy destino texto = memcpy destino 0 (texto ++ 0 ∷ []) (length texto + 1)

-- `strncpy` pads the text with zeros.
abbrev pub strncpy : (destino : List ℕ) → Nombre → ℕ → List ℕ
strncpy destino texto n = memcpy destino 0 (take n (texto ++ replicate n 0)) n

-- `sscanf(texto, "%d", &n)` for an `n` that is `anterior`: without digits it stays. No host sends
-- blanks or a sign in front of a number.
abbrev pub sscanf_numero : (texto : List ℕ) (anterior : ℕ) → ℕ
sscanf_numero texto anterior = if contar_cifras texto == 0 then anterior else valor_desde 0 texto

-- "OK" and "%d".
abbrev pub texto_ok : Nombre
texto_ok = 79 ∷ 75 ∷ []

abbrev pub texto_formato : Nombre
texto_formato = 37 ∷ 100 ∷ []
