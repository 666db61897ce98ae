-- ===== src/Engine/Guests/Quoting.antt =====
-- `shellQuote` of internal/engine/containerlab.go.
pub mod RoundTrip
use Prim.Native.Char.{Char, code}
use labcontainers.Prelude.{String, nat_eq, if◌then◌else◌}
use labcontainers.Prelude.FilePath.{◌⧺◌}

-- `strings.ReplaceAll(s, "'", …)`: the quotation ends, a quoted quote, and it starts again.
unfoldable pub escape_quotes : String → String
escape_quotes String.[] = String.[]
escape_quotes (String.◌∷◌ c s) =
    let rest = escape_quotes s in
    if nat_eq (code c) b'\'' then "'\\''" ⧺ rest else String.◌∷◌ c rest

unfoldable pub shell_quote : String → String
unfolding escape_quotes
shell_quote s = "'" ⧺ escape_quotes s ⧺ "'"
