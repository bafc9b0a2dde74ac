-- ===== src/Examples/Messages.antt =====
-- The theorems on messages, applied to two messages of one host.
use pf9_du.Prelude.{◌≡◌, List, [], ◌∷◌}
use pf9_du.Prelude.Assoc.{Assoc, get}
use pf9_du.Poller.Messages.{Message, add_host_message, messages_at}
use pf9_du.Poller.Messages.Laws.{add_host_message-messages_at}

abbrev old : Message
old = record { code = 1; msg = "clock skew" }

abbrev other : Message
other = record { code = 2; msg = "certificate" }

abbrev table : Assoc (Assoc (List Message))
table = ("h1", ("warn", old ∷ other ∷ []) ∷ []) ∷ []

add_host_message-messages_at_example :
    messages_at "h1" "warn" (add_host_message "h1" "warn" "skew again" 1 table)
    ≡ other ∷ record { code = 1; msg = "skew again" } ∷ []
unfolding messages_at get
add_host_message-messages_at_example =
    add_host_message-messages_at "h1" "warn" 1 "skew again" "h1" "warn" table
