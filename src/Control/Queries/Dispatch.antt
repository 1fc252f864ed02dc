-- ===== src/Control/Queries/Dispatch.antt =====
-- Where a query goes.
use meteodata_server.Base.{
  ℕ, ◌≡◌, ◌∙◌, refl, ap, true, false, List, [], ◌∷◌, ◌++◌, Bytes, none, some, if◌then◌else◌, All,
  arith,
}
use meteodata_server.Base.Text.{text_eq, text_eq_refl}
use meteodata_server.Control.Connection.{first_line}
use meteodata_server.Control.Connection.Commands.{IsLine}
use meteodata_server.Control.Queries.{
  Server, Verb, QueryHandler, is_space, skip_spaces, word, after_word, next_word, find_named,
  own_command, or_default, argument, execute, handle_query,
}

-- A word, and a text that does not start with a space and has no end of line.
abbrev pub IsWord : Bytes → Type 0
IsWord [] = false ≡ true
IsWord (b ∷ bs) = (is_space b ≡ false) × All (λ c. is_space c ≡ false) bs

abbrev pub IsArgument : Bytes → Type 0
IsArgument [] = Unit
IsArgument (b ∷ bs) = (is_space b ≡ false) × IsLine (b ∷ bs)

word-append :
    (w rest : Bytes)
    → All (λ c. is_space c ≡ false) w
    → (word (w ++ (32 ∷ rest)) ≡ w) × (after_word (w ++ (32 ∷ rest)) ≡ 32 ∷ rest)
word-append [] rest h = (refl, refl)
word-append (b ∷ bs) rest (h, more) =
    let (first, later) = word-append bs rest more in (rw h (ap (◌∷◌ b) first), rw h later)

skip_none : (b : ℕ) (bs : Bytes) → is_space b ≡ false → skip_spaces (b ∷ bs) ≡ b ∷ bs
skip_none b bs h = rw h refl

next_word-append : (w rest : Bytes) → IsWord w → next_word (w ++ (32 ∷ rest)) ≡ (w, 32 ∷ rest)
next_word-append [] rest h = ground (arith, h)
next_word-append (b ∷ bs) rest (h, more) =
    let (first, later) = word-append (b ∷ bs) rest (h, more) in
    ap (λ is. (word is, after_word is)) (skip_none b (bs ++ (32 ∷ rest)) h)
    ∙ (λ i. (first i, later i))

first_line-IsLine : (bs : Bytes) → IsLine bs → first_line bs ≡ bs
first_line-IsLine [] h = refl
first_line-IsLine (b ∷ bs) (h, more) = rw h (ap (◌∷◌ b) (first_line-IsLine bs more))

argument_lem : (name : Bytes) → IsArgument name → first_line (skip_spaces name) ≡ name
argument_lem [] h = refl
argument_lem (b ∷ bs) (h, more) = ap first_line (skip_none b bs h) ∙ first_line-IsLine (b ∷ bs) more

-- A category, a verb and an argument, with a space between them.
abbrev pub query_of : Bytes → Bytes → Bytes → Bytes
query_of category verb name = category ++ (32 ∷ (verb ++ (32 ∷ name)))

or_default_lem : (h : QueryHandler) (verb : Bytes) → IsWord verb → or_default h verb ≡ verb
or_default_lem h [] w = ground (arith, w)
or_default_lem h (b ∷ bs) w = refl

module _ (category verb name : Bytes) (is_category : IsWord category) (is_verb : IsWord verb) where
  category_lem : next_word (query_of category verb name) ≡ (category, 32 ∷ (verb ++ (32 ∷ name)))
  category_lem = next_word-append category (verb ++ (32 ∷ name)) is_category

  verb_lem : next_word (next_word (query_of category verb name)).1 ≡ (verb, 32 ∷ name)
  verb_lem = ap (λ w. next_word w.1) category_lem ∙ next_word-append verb name is_verb

  own_command_lem :
      (h : QueryHandler) → own_command h (query_of category verb name) ≡ find_named verb h.commands
  own_command_lem h =
      ap (λ w. find_named (or_default h w.0) h.commands) verb_lem
      ∙ ap (λ v. find_named v h.commands) (or_default_lem h verb is_verb)

  passed_on :
      (server : Server) (before after : List QueryHandler)
      → All (λ g. text_eq category g.category ≡ false) before
      → handle_query server (before ++ after) (query_of category verb name)
        ≡ handle_query server after (query_of category verb name)
  unfolding handle_query
  passed_on server [] after d = refl
  passed_on server (g ∷ before) after (differs, more) =
      ap
        (λ test.
          if test
          then elim (own_command g (query_of category verb name)) [
            | none ↦ handle_query server (before ++ after) (query_of category verb name)
            | some v ↦ some (execute server g.kind v (argument (query_of category verb name)))
          ]
          else handle_query server (before ++ after) (query_of category verb name))
        (ap (λ w. text_eq w.0 g.category) category_lem ∙ differs)
      ∙ passed_on server before after more

  -- A query of a category, a verb and an argument, in a chain where the first handler of that category has a
  -- command of that verb, is the execution of that command on the argument.
  pub query_dispatched :
      (server : Server) (before after : List QueryHandler) (h : QueryHandler) (command : Verb)
      → All (λ g. text_eq category g.category ≡ false) before
      → h.category ≡ category
      → find_named verb h.commands ≡ some command
      → IsArgument name
      → handle_query server (before ++ (h ∷ after)) (query_of category verb name)
        ≡ some (execute server h.kind command name)
  unfolding handle_query
  query_dispatched server before after h command others own found plain =
      let query = query_of category verb name in
      let rest = handle_query server after query in
      passed_on server before (h ∷ after) others
      ∙ ap
          (λ test.
            if test
            then elim (own_command h query) [
              | none ↦ rest
              | some v ↦ some (execute server h.kind v (argument query))
            ]
            else rest)
          (ap (λ w. text_eq w.0 h.category) category_lem
            ∙ ap (text_eq category) own
            ∙ text_eq_refl category)
      ∙ ap (λ o. elim o [ none ↦ rest | some v ↦ some (execute server h.kind v (argument query)) ])
          (own_command_lem h ∙ found)
      ∙ ap (λ a. some (execute server h.kind command a))
          (ap (λ w. first_line (skip_spaces w.1)) verb_lem ∙ argument_lem name plain)
