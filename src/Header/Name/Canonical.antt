-- ===== src/Header/Name/Canonical.antt =====
-- Canonical names: those that the program writes, and the two spellings of a name.
use gb.Base.{◌≡◌, refl}
use gb.Base.{codes}
use gb.Header.Name.{canonical_name}

pub via_canonical : canonical_name (codes "Via") ≡ codes "Via"
unfolding canonical_name
via_canonical = refl

pub cseq_canonical : canonical_name (codes "CSeq") ≡ codes "CSeq"
unfolding canonical_name
cseq_canonical = refl

pub call_id_canonical : canonical_name (codes "Call-ID") ≡ codes "Call-ID"
unfolding canonical_name
call_id_canonical = refl

pub max_forwards_canonical : canonical_name (codes "Max-Forwards") ≡ codes "Max-Forwards"
unfolding canonical_name
max_forwards_canonical = refl

pub from_canonical : canonical_name (codes "From") ≡ codes "From"
unfolding canonical_name
from_canonical = refl

pub to_canonical : canonical_name (codes "To") ≡ codes "To"
unfolding canonical_name
to_canonical = refl

pub content_length_canonical : canonical_name (codes "l") ≡ canonical_name (codes "content-LENGTH")
unfolding canonical_name
content_length_canonical = refl
