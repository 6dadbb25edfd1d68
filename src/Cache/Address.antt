-- ===== src/Cache/Address.antt =====
-- The overloads of `setCredentials`.
use nodejs_template.Prelude.{
  ◌≡◌, ◌≢◌, refl, true, false, Bool, List, [], ◌∷◌, ◌++◌, any, ap, ◌∙◌, arith, ◌==◌, map,
}
use nodejs_template.Text.{Text}
use nodejs_template.Cache.{
  Connection, one_array, connections, credentials_string, join_comma, make_connection_string,
}

abbrev has_comma : Text → Bool
has_comma t = any (λ c. c == b',') t

has_comma-append : (s t : Text) → has_comma t ≡ true → has_comma (s ++ t) ≡ true
has_comma-append [] t h = h
has_comma-append (c ∷ s) t h = ground (arith, has_comma-append s t h)

-- `setCredentials([c, d, …])`, which the overloads declare, is never what `setCredentials(c, d, …)`
-- is: two connections or more in one array give another connection string than the same
-- connections as arguments.
one_array-ne-connections :
    (c d : Connection) (rest : List Connection)
    → credentials_string (one_array (c ∷ d ∷ rest)) ≢ credentials_string (connections c d rest)
unfolding credentials_string
one_array-ne-connections c d rest e =
    let comma =
      has_comma-append (make_connection_string c)
        (b',' ∷ join_comma (map make_connection_string (d ∷ rest))) refl in
    let same : false ≡ true = ap has_comma e ∙ comma in cc
