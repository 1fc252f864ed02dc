-- ===== src/Control/Queries.antt =====
-- The queries of the control interface and the chain of their handlers (src/control/query_handler.cpp,
-- src/control/connectors_query_handler.cpp, src/control/exporters_query_handler.cpp and
-- src/control/general_query_handler.cpp). A connector and an exporter are known by a number.
pub mod Dispatch
use meteodata_server.Base.{
  ℕ, Bool, true, false, ◌||◌, ◌&&◌, List, [], ◌∷◌, map, Bytes, Option, none, some, leb, ◌==◌,
  if◌then◌else◌,
}
use meteodata_server.Base.Text.{text_eq}
use meteodata_server.Control.Connection.{first_line}

-- What the handlers act on: the named connectors and exporters of the server.
pub record Server : Type 0 where
  pub connectors : List (Bytes × ℕ)
  pub exporters : List (Bytes × ℕ)

pub data Verb : Type 0 where
  list status start stop reload shutdown help : Verb

-- The handlers, by their category.
pub data Category : Type 0 where
  general connectors exporters : Category

-- The answers; those of `help` and `status` are texts that are left out.
pub data Answer : Type 0 where
  names : List Bytes → Answer
  status_of : ℕ → Answer
  help_about : Category → Answer
  ok server_stopped : Answer
  unknown : Bytes → Answer

-- What is called on a connector, an exporter or the server.
pub data Action : Type 0 where
  calls : Category → Verb → ℕ → Action
  stops_server : Action

-- QueryHandler: its commands in the order of their search, each with the member function it calls.
pub record QueryHandler : Type 0 where
  pub category : Bytes
  pub kind : Category
  pub commands : List (Bytes × Verb)
  pub default_command : Bytes

abbrev word_list : Bytes
word_list = b'l' ∷ b'i' ∷ b's' ∷ b't' ∷ []

abbrev word_status : Bytes
word_status = b's' ∷ b't' ∷ b'a' ∷ b't' ∷ b'u' ∷ b's' ∷ []

abbrev word_help : Bytes
word_help = b'h' ∷ b'e' ∷ b'l' ∷ b'p' ∷ []

abbrev word_start : Bytes
word_start = b's' ∷ b't' ∷ b'a' ∷ b'r' ∷ b't' ∷ []

abbrev word_stop : Bytes
word_stop = b's' ∷ b't' ∷ b'o' ∷ b'p' ∷ []

abbrev word_reload : Bytes
word_reload = b'r' ∷ b'e' ∷ b'l' ∷ b'o' ∷ b'a' ∷ b'd' ∷ []

abbrev word_shutdown : Bytes
word_shutdown = b's' ∷ b'h' ∷ b'u' ∷ b't' ∷ b'd' ∷ b'o' ∷ b'w' ∷ b'n' ∷ []

-- The constructor of ConnectorsQueryHandler
abbrev pub connectors_query_handler : QueryHandler
connectors_query_handler = record {
  category = b'c' ∷ b'o' ∷ b'n' ∷ b'n' ∷ b'e' ∷ b'c' ∷ b't' ∷ b'o' ∷ b'r' ∷ b's' ∷ [];
  kind = connectors;
  commands =
      (word_list, list)
      ∷ (word_status, status)
      ∷ (word_help, help)
      ∷ (word_start, start)
      ∷ (word_stop, stop)
      ∷ (word_reload, reload)
      ∷ [];
  default_command = word_list;
}

-- The constructor of ExportersQueryHandler
abbrev pub exporters_query_handler : QueryHandler
exporters_query_handler = record {
  category = b'e' ∷ b'x' ∷ b'p' ∷ b'o' ∷ b'r' ∷ b't' ∷ b'e' ∷ b'r' ∷ b's' ∷ [];
  kind = exporters;
  commands =
      (word_list, list)
      ∷ (word_help, help)
      ∷ (word_start, start)
      ∷ (word_stop, stop)
      ∷ (word_reload, reload)
      ∷ [];
  default_command = word_list;
}

-- The constructor of GeneralQueryHandler
abbrev pub general_query_handler : QueryHandler
general_query_handler = record {
  category = b'g' ∷ b'e' ∷ b'n' ∷ b'e' ∷ b'r' ∷ b'a' ∷ b'l' ∷ [];
  kind = general;
  commands = (word_shutdown, shutdown) ∷ (word_help, help) ∷ [];
  default_command = word_help;
}

-- The chain that the constructor of ControlConnector makes.
abbrev pub query_handler_chain : List QueryHandler
query_handler_chain =
    general_query_handler ∷ connectors_query_handler ∷ exporters_query_handler ∷ []

-- isspace
abbrev pub is_space : ℕ → Bool
is_space b = b == 32 || leb 9 b && leb b 13

-- `is >> std::ws`
abbrev pub skip_spaces : Bytes → Bytes
skip_spaces [] = []
skip_spaces (b ∷ bs) = let later = skip_spaces bs in if is_space b then later else b ∷ bs

abbrev pub word : Bytes → Bytes
word [] = []
word (b ∷ bs) = let more = word bs in if is_space b then [] else b ∷ more

abbrev pub after_word : Bytes → Bytes
after_word [] = []
after_word (b ∷ bs) = let later = after_word bs in if is_space b then b ∷ bs else later

-- `is >> text`: the next word, empty at the end of the stream, and what is left.
abbrev pub next_word : Bytes → Bytes × Bytes
next_word is = (word (skip_spaces is), after_word (skip_spaces is))

abbrev pub is_empty : Bytes → Bool
is_empty [] = true
is_empty (b ∷ bs) = false

abbrev pub find_named {ℓ} : {A : Type ℓ} → Bytes → List (Bytes × A) → Option A
find_named name [] = none
find_named name ((key, a) ∷ rest) =
    let found = find_named name rest in if text_eq key name then some a else found

abbrev pub answered : Category → Verb → ℕ → Answer × List Action
answered kind status n = (status_of n, [])
answered kind verb n = (ok, calls kind verb n ∷ [])

-- callOnConnector and callOnExporter
abbrev pub call_on : Category → Verb → List (Bytes × ℕ) → Bytes → Answer × List Action
call_on kind verb all name = elim (find_named name all) [
  | none ↦ (unknown name, [])
  | some n ↦ answered kind verb n
]

abbrev pub named {ℓ} : {A : Type ℓ} → Bytes × A → Bytes
named (name, a) = name

abbrev pub members : Server → Category → List (Bytes × ℕ)
members server general = []
members server connectors = server.connectors
members server exporters = server.exporters

-- The commands of the handlers.
unfoldable pub execute : Server → Category → Verb → Bytes → Answer × List Action
execute server kind list rest = (names (map named (members server kind)), [])
execute server kind help rest = (help_about kind, [])
execute server kind shutdown rest = (server_stopped, stops_server ∷ [])
execute server kind status rest = call_on kind status (members server kind) rest
execute server kind start rest = call_on kind start (members server kind) rest
execute server kind stop rest = call_on kind stop (members server kind) rest
execute server kind reload rest = call_on kind reload (members server kind) rest

abbrev pub or_default : QueryHandler → Bytes → Bytes
or_default h verb = if is_empty verb then h.default_command else verb

-- The part of handleQuery that runs a command of the handler's own category.
abbrev pub own_command : QueryHandler → Bytes → Option Verb
own_command h query = find_named (or_default h (next_word (next_word query).1).0) h.commands

abbrev pub argument : Bytes → Bytes
argument query = first_line (skip_spaces (next_word (next_word query).1).1)

-- handleQuery along the chain; none is the empty answer.
unfoldable pub handle_query : Server → List QueryHandler → Bytes → Option (Answer × List Action)
unfolding execute
handle_query server [] query = none
handle_query server (h ∷ chain) query =
    let passed_on = handle_query server chain query in
    if text_eq (next_word query).0 h.category
    then elim (own_command h query) [
      | none ↦ passed_on
      | some verb ↦ some (execute server h.kind verb (argument query))
    ]
    else passed_on
