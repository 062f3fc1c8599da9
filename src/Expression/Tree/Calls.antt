-- ===== src/Expression/Tree/Calls.antt =====
-- `_parse_unary` and `_parse_primary` of `_ExprParser` on the tokens of each tree.
use protocyte.Common.{
  ℕ, zero, suc, ◌≤◌, Bool, ◌≡◌, refl, ◌∙◌, none, some, List, [], ◌∷◌, ◌++◌, append_assoc, Result,
  ok, err, ◌>>=◌, Bytes, codes, text_eq, length, length-append, arith,
}
use protocyte.Expression.Syntax.{Token, match_token, Semantics}
use protocyte.Expression.Parser.{
  ParserOf, with_rest, expect, parse_level, arguments_loop, parse_arguments, parse_name,
}
use protocyte.Expression.Tree.{
  Tree, Trees, call, nil, cons, written, written_arguments, written_further, open_token,
  close_token, comma_token, Fits, AllFit, eval, eval_arguments,
}
use protocyte.Expression.Tree.Symbols.{Stops-close_token, Stops-comma_token}
use protocyte.Expression.Tree.Levels.{Parses}
use protocyte.Expression.Tree.Words.{match_token-written}

module _ {Value E : Type 0} (s : Semantics Value E) (fuel : ℕ) where
  abbrev pub AllParse : ParserOf E Value → Trees → Type 0
  AllParse unary_parser nil = Unit
  AllParse unary_parser (cons e args) = Parses s fuel unary_parser 10 e × AllParse unary_parser args

  module _ (unary_parser : ParserOf E Value) where
    abbrev nested : ParserOf E Value
    nested = parse_level s fuel 10 unary_parser

    -- Behind the first argument, at the closing parenthesis
    last_argument :
        (n : ℕ) (evaluate : Bool) (seen : List Value) (rest : List Token) (first : Result E Value)
        → (with_rest (close_token ∷ rest) first >>= λ (arg, behind).
            elim (match_token (codes ")") behind) [
              | some after ↦ ok (seen ++ arg ∷ [], after)
              | none ↦ expect (codes ",") behind >>= λ after.
                  arguments_loop s n nested evaluate (seen ++ arg ∷ []) after
            ])
          ≡ with_rest rest (first >>= λ value. ok (seen ++ value ∷ []))
    unfolding text_eq
    last_argument n evaluate seen rest (err raised) = refl
    last_argument n evaluate seen rest (ok value) = refl

    collect :
        (evaluate : Bool) (seen : List Value) (value : Value) (rest : List Token)
        (others : Result E (List Value))
        → with_rest rest (others >>= λ values. ok ((seen ++ value ∷ []) ++ values))
          ≡ with_rest rest
              ((others >>= λ values. ok (value ∷ values)) >>= λ values. ok (seen ++ values))
    collect evaluate seen value rest (err raised) = refl
    collect evaluate seen value rest (ok values) = rw (append_assoc seen (value ∷ []) values) refl

    -- Behind the first argument, at a comma
    next_argument :
        (n : ℕ) (evaluate : Bool) (seen : List Value) (tokens rest : List Token)
        (first : Result E Value) (others : Result E (List Value))
        → ((value : Value)
            → arguments_loop s n nested evaluate (seen ++ value ∷ []) tokens
              ≡ with_rest rest (others >>= λ values. ok ((seen ++ value ∷ []) ++ values)))
        → (with_rest (comma_token ∷ tokens) first >>= λ (arg, behind).
            elim (match_token (codes ")") behind) [
              | some after ↦ ok (seen ++ arg ∷ [], after)
              | none ↦ expect (codes ",") behind >>= λ after.
                  arguments_loop s n nested evaluate (seen ++ arg ∷ []) after
            ])
          ≡ with_rest rest (
              (first >>= λ value. others >>= λ values. ok (value ∷ values)) >>= λ values.
              ok (seen ++ values))
    unfolding text_eq
    next_argument n evaluate seen tokens rest (err raised) others goes = refl
    next_argument n evaluate seen tokens rest (ok value) others goes =
        goes value ∙ collect evaluate seen value rest others

    further_read :
        (e : Tree) (args : Trees) (n : ℕ) (evaluate : Bool) (seen : List Value) (rest : List Token)
        → AllParse unary_parser (cons e args)
        → length (written e ++ written_further args) ≤ n
        → arguments_loop s n nested evaluate seen ((written e ++ written_further args) ++ rest)
          ≡ with_rest rest
              (eval_arguments s evaluate (cons e args) >>= λ values. ok (seen ++ values))
    unfolding arguments_loop written eval
    further_read e nil zero evaluate seen rest (here, others) enough =
        absurd (omega (arith, enough, length-append (written e) (close_token ∷ [])))
    further_read e (cons next args) zero evaluate seen rest (here, others) enough =
        absurd (omega (arith, enough, length-append (written e) (written_further (cons next args))))
    further_read e nil (suc n) evaluate seen rest (here, others) enough =
        rw (append_assoc (written e) (close_token ∷ []) rest) (
          rw (here evaluate (close_token ∷ rest) (Stops-close_token rest))
            (last_argument n evaluate seen rest (eval s evaluate e) ∙ finish (eval s evaluate e)))
      where
        finish :
            (first : Result E Value)
            → with_rest rest (first >>= λ value. ok (seen ++ value ∷ []))
              ≡ with_rest rest
                  ((first >>= λ value. ok (value ∷ [])) >>= λ values. ok (seen ++ values))
        finish (err raised) = refl
        finish (ok value) = refl
    further_read e (cons next args) (suc n) evaluate seen rest (here, others) enough =
        let tokens = written next ++ written_further args in
        let sizes = length-append (written e) (comma_token ∷ tokens) in
        let less : length tokens ≤ n = omega (arith, enough, sizes) in
        rw (append_assoc (written e) (comma_token ∷ tokens) rest) (
          rw (here evaluate (comma_token ∷ tokens ++ rest) (Stops-comma_token (tokens ++ rest))) (
            next_argument n evaluate seen (tokens ++ rest) rest (eval s evaluate e)
              (eval_arguments s evaluate (cons next args))
              (λ value. further_read next args n evaluate (seen ++ value ∷ []) rest others less)))

    arguments_read :
        (args : Trees) (evaluate : Bool) (rest : List Token)
        → AllParse unary_parser args
        → AllFit args
        → length (written_arguments args) ≤ fuel
        → parse_arguments s fuel nested evaluate (written_arguments args ++ rest)
          ≡ with_rest rest (eval_arguments s evaluate args)
    unfolding parse_arguments written eval Fits text_eq
    arguments_read nil evaluate rest parses fits enough = refl
    arguments_read (cons e args) evaluate rest parses (fits, others) enough =
        goes_on
        ∙ further_read e args fuel evaluate [] rest parses enough
        ∙ unchanged (eval_arguments s evaluate (cons e args))
      where
        no_close : match_token (codes ")") ((written e ++ written_further args) ++ rest) ≡ none
        no_close =
            rw (append_assoc (written e) (written_further args) rest)
              (match_token-written 10 e (written_further args ++ rest) fits)

        goes_on :
            parse_arguments s fuel nested evaluate ((written e ++ written_further args) ++ rest)
            ≡ arguments_loop s fuel nested evaluate [] ((written e ++ written_further args) ++ rest)
        goes_on = rw (parse_arguments, no_close) refl

        unchanged :
            (values : Result E (List Value))
            → with_rest rest (values >>= λ v. ok ([] ++ v)) ≡ with_rest rest values
        unchanged (err raised) = refl
        unchanged (ok v) = refl

    pub name_read :
        (text : Bytes) (args : Trees) (evaluate : Bool) (rest : List Token)
        → AllParse unary_parser args
        → AllFit args
        → length (written_arguments args) ≤ fuel
        → parse_name s fuel nested evaluate text (open_token ∷ written_arguments args ++ rest)
          ≡ with_rest rest (eval s evaluate (call text args))
    unfolding parse_name eval text_eq
    name_read text args evaluate rest parses fits enough =
        rw (arguments_read args evaluate rest parses fits enough)
          (apply (eval_arguments s evaluate args))
      where
        apply :
            (values : Result E (List Value))
            → (with_rest rest values >>= λ (args, after).
                with_rest after (s.call evaluate text args))
              ≡ with_rest rest (values >>= λ v. s.call evaluate text v)
        apply (err raised) = refl
        apply (ok v) = refl
