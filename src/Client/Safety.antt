-- ===== src/Client/Safety.antt =====
-- What a download leaves on the client's side, over any network.
use rted_tftp.Base.{◌≡◌, Bool, true, false, none, some, Bytes}
use rted_tftp.Net.{Host, Net}
use rted_tftp.Transfer.Receive.Safety.{PrintsPast}
use rted_tftp.Client.{Ended, ended, exited, overread, crashed, starved}

-- The client ends, and with success only when it has written the file, whole; or it prints a message
-- without a terminator, or its transfer data was not allocated.
abbrev pub ReportsWhole : Host → Bool → Bytes → Ended → Type 0
ReportsWhole h allocated file (ended true (some f) n) = f.written ≡ file
ReportsWhole h allocated file (ended true none n) = ⊥
ReportsWhole h allocated file (ended false f n) = Unit {0}
ReportsWhole h allocated file exited = Unit {0}
ReportsWhole h allocated file (overread t) = PrintsPast h t
ReportsWhole h allocated file crashed = allocated ≡ false
ReportsWhole h allocated file starved = ⊥
