-- ===== src/Tests/Messages.antt =====
-- The theorems on messages.
use grintorrent.Base.{ℕ, ◌≡◌, refl, some, List, ◌++◌, arith, take, replicate, out_of_fuel}
use grintorrent.Message.{MessageInfo, encode_info, send_message, receive_message, file_data}
use grintorrent.Message.Send.{Sends, send_message-Sends}
use grintorrent.Message.Receive.{receive_message-out_of_fuel}
use grintorrent.Tests.Data.{sixteen, sixteen-Obeys, sixteen-Progresses, padding}

abbrev bytes : List ℕ
bytes = replicate 40 5

abbrev info : MessageInfo
info = record { type = file_data; size = 40 }

send_message-Sends_example :
    Sends
      (encode_info padding info ++ take 40 bytes)
      (send_message sixteen padding info (some bytes))
send_message-Sends_example =
    send_message-Sends sixteen padding bytes info sixteen-Obeys (omega arith)

receive_message-out_of_fuel_example :
    receive_message sixteen 1000
      (some 64)
      30
      (encode_info padding info ++ (take 30 bytes ++ replicate 10 5))
    ≡ out_of_fuel
receive_message-out_of_fuel_example =
    receive_message-out_of_fuel sixteen 1000 64 30 padding (take 30 bytes) (replicate 10 5) info
      sixteen-Progresses sixteen-Obeys refl refl refl (omega arith) (omega arith) (omega arith)
