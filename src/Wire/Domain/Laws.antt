-- ===== src/Wire/Domain/Laws.antt =====
-- src/privacy/protocol-v1.js: the length of a domain tag.
use clairveiljs.Prelude.{String, ◌≡◌, length, arith}
use clairveiljs.Text.{codes}
use clairveiljs.Crypto.Primitives.{Primitives, HasLaws}
use clairveiljs.Wire.Bytes.Laws.{length-take}
use clairveiljs.Wire.Domain.{fixed_domain_tag}

pub length-fixed_domain_tag :
    {c : Primitives} → HasLaws c → (label : String) → length (fixed_domain_tag c label) ≡ 16
unfolding fixed_domain_tag
length-fixed_domain_tag {c} laws label =
    length-take 16 (c.sha256 (c.utf8_bytes (codes label)))
      (omega (arith, laws.length-sha256 (c.utf8_bytes (codes label))))
