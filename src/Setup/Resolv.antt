-- ===== src/Setup/Resolv.antt =====
-- The name servers in a resolv.conf, as a reader of the file finds them.
use rootlesskit.Base.{All, if◌then◌else◌, ◌≡◌, refl, ap, ◌∙◌, false, List, [], ◌∷◌, ◌++◌}
use rootlesskit.Text.{Bytes, codes}
use rootlesskit.Text.Search.{split-line, split, contains, has_prefix, trim_prefix}
use rootlesskit.Setup.Net.{generate_resolv_conf}

keyword : Bytes
keyword = codes "nameserver "

unfoldable pub from_lines : List Bytes → List Bytes
unfolding has_prefix trim_prefix keyword
from_lines [] = []
from_lines (line ∷ lines) =
    let rest = from_lines lines in
    if has_prefix line keyword then trim_prefix line keyword ∷ rest else rest

unfoldable pub nameservers : Bytes → List Bytes
unfolding split from_lines
nameservers text = from_lines (split text 10)

from_lines-nameserver :
    (name : Bytes) (lines : List Bytes)
    → from_lines ((codes "nameserver " ++ name) ∷ lines) ≡ name ∷ from_lines lines
unfolding from_lines
from_lines-nameserver name lines = refl

-- The name servers that generateResolvConf writes are those that are found in its text, in order,
-- if none of them has a line feed.
pub nameservers-generate :
    (dns : List Bytes)
    → All (λ name. contains name 10 ≡ false) dns
    → nameservers (generate_resolv_conf dns) ≡ dns
unfolding nameservers generate_resolv_conf
nameservers-generate [] h = refl
nameservers-generate (name ∷ dns) h =
    let text = generate_resolv_conf dns in
    ap from_lines (split-line (codes "nameserver " ++ name) text 10 h.0)
    ∙ (from_lines-nameserver name (split text 10)
        ∙ ap (λ l. name ∷ l) (nameservers-generate dns h.1))
