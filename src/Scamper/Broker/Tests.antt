-- ===== src/Scamper/Broker/Tests.antt =====
-- A session of the broker with one daemon, and the broker's theorems at it.
use spoki.Prelude.{◌≡◌, ◌++◌, refl, Option, none, some, List, [], ◌∷◌, true}
use spoki.Net.{Address}
use spoki.Probe.{Request, empty_request}
use spoki.Probe.Commands.{make_command}
use spoki.Prelude.Assoc.{find}
use spoki.Scamper.{Bytes}
use spoki.Scamper.Driver.Framing.{all_framed}
use spoki.Scamper.Broker.{BrokerState, Effect, broker}
use spoki.Scamper.Broker.Lines.{new_data}
use spoki.Scamper.Broker.Pieces.{new_data-pieces}
use spoki.Scamper.Broker.Actor.{Message, connect, new_data_msg, request, handle_all}
use spoki.Scamper.Broker.Spending.{asked}
use spoki.Scamper.Broker.Balance.{IsFair, handle_all-IsFair}
use spoki.Scamper.Broker.Queueing.{forwarded, handle_all-unserved}

-- stand-ins for the printer of addresses and the decoder
abbrev show : Address → Bytes
show a = b'1' ∷ []

abbrev plain : Bytes → Option Bytes
plain [] = none
plain (c ∷ cs) = some (c ∷ cs)

abbrev ok_more : Bytes
ok_more = b'O' ∷ b'K' ∷ 10 ∷ b'M' ∷ b'O' ∷ b'R' ∷ b'E' ∷ 10 ∷ []

abbrev asked_for : Request
asked_for = record empty_request { user_id = 77 }

abbrev messages : List Message
messages =
    connect [] 80 true (some 5)
    ∷ new_data_msg 5 ok_more
    ∷ request asked_for
    ∷ new_data_msg 5 ok_more
    ∷ []

abbrev ended : BrokerState × List Effect
ended = handle_all show plain messages broker

-- two MOREs are two commands
two_commands : asked ended.1 ≡ 2
unfolding handle_all broker make_command
two_commands = refl

handle_all-IsFair_example : IsFair (asked ended.1) ended.0
handle_all-IsFair_example = handle_all-IsFair show plain messages

handle_all-unserved_example :
    (ended.0.request_queue ≡ asked_for ∷ []) × (ended.0.in_progress ≡ []) × (forwarded ended.1 ≡ 0)
handle_all-unserved_example = handle_all-unserved show plain messages

abbrev half : Bytes
half = b'M' ∷ b'O' ∷ []

abbrev other_half : Bytes
other_half = b'R' ∷ b'E' ∷ 10 ∷ []

new_data-pieces_example :
    let first = new_data show plain 5 half broker in
    let second = new_data show plain 5 other_half first.0 in
    let whole = new_data show plain 5 (half ++ other_half) broker in
    (second.0 ≡ whole.0) × (first.1 ++ second.1 ≡ whole.1)
unfolding broker all_framed find
new_data-pieces_example = new_data-pieces show plain 5 broker half other_half refl
