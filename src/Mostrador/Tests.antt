-- ===== src/Mostrador/Tests.antt =====
-- A flight with one piece.
use aeropuerto.Base.{refl, List, [], ◌∷◌, none, some}
use aeropuerto.Contenedor.{Equipaje}
use aeropuerto.Mostrador.{
  Puesto, libre, atiende, Sistema, Evento, nada, inicia, cierra, registra, Paso, llega, coloca,
  termina, abre, cierre, Corrida, fin, paso, lock, unlock, iniciar_checkin, cerrar_checkin,
  comienza_checkin_pasajero, fin_checkin_pasajero, registrar_equipaje, get_vuelo_actual,
  por_registrar,
}
use aeropuerto.Mostrador.Cuenta.{Libro, Anotado, Representa, Corrida-Anotado}

abbrev valija : Equipaje
valija = record { rfid = 1; peso = 20 }

abbrev cerrado : Puesto
cerrado = record { num_vuelo = none; cant_equipajes = 0; mutex = 1 }

abbrev inicial : Sistema
inicial = record { puesto = cerrado; fase = libre; cinta = [] }

abbrev abierto : Puesto
abierto = record cerrado { num_vuelo = some 5 }

abbrev con_vuelo_abierto : Sistema
con_vuelo_abierto = record inicial { puesto = abierto }

abbrev con_pasajero : Sistema
con_pasajero = record inicial {
  puesto = record abierto { mutex = 0 };
  fase = atiende 5 (valija ∷ []);
}

abbrev registrada : Sistema
registrada = record inicial {
  puesto = record abierto { mutex = 0; cant_equipajes = 1 };
  fase = atiende 5 [];
  cinta = valija ∷ [];
}

abbrev atendido : Sistema
atendido = record registrada { puesto = record abierto { cant_equipajes = 1 }; fase = libre }

abbrev final : Sistema
final = record atendido { puesto = record cerrado { cant_equipajes = 1 } }

abre_5 : Paso inicial (inicia 5) con_vuelo_abierto
unfolding iniciar_checkin lock unlock
abre_5 = abre 5 refl

llega_uno : Paso con_vuelo_abierto nada con_pasajero
unfolding comienza_checkin_pasajero lock por_registrar get_vuelo_actual
llega_uno = llega 5 (valija ∷ []) refl refl

coloca_valija : Paso con_pasajero (registra 5 valija) registrada
unfolding registrar_equipaje
coloca_valija = coloca 5 valija [] refl refl

termina_uno : Paso registrada nada atendido
unfolding fin_checkin_pasajero unlock
termina_uno = termina 5 refl

cierra_1 : Paso atendido (cierra 1) final
unfolding cerrar_checkin lock unlock
cierra_1 = cierre 1 refl

abbrev eventos : List Evento
eventos = inicia 5 ∷ nada ∷ registra 5 valija ∷ nada ∷ cierra 1 ∷ []

corrida : Corrida inicial eventos final
corrida = paso abre_5 (paso llega_uno (paso coloca_valija (paso termina_uno (paso cierra_1 fin))))

Corrida-Anotado_example : (t' : Libro) × Anotado none eventos t' × Representa final t'
Corrida-Anotado_example = Corrida-Anotado none corrida (refl, refl)
