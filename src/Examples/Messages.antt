-- ===== src/Examples/Messages.antt =====
-- Dialogs and URIs.
use gb.Base.{◌≡◌, refl, ◌≢◌}
use gb.Base.{true, false, none, some, [], ◌∷◌, ◌++◌}
use gb.Base.{pos}
use gb.Base.{Bytes, codes, bytes_eq, lower, to_lower, equal_fold}
use gb.Uri.{Uri}
use gb.Header.Address.{Address, NameAddrList}
use gb.Header.Fields.{addr_header, name}
use gb.Header.Name.{canonical_name}
use gb.Headers.{Headers}
use gb.Headers
use gb.Message
use gb.Message.{
  Method, Request, Response, Message, request, response, Addr, new_request, new_response,
}
use gb.Uri
use gb.Uri.Clean.{IsClean, to_string-IsClean}
use gb.Dialog.State.{Dialog, early, id, update_from_response, tag_of}
use gb.Dialog.Index.{Manager, find, add, remove, change, retagged_is_lost}
use gb.Dialog.Sequence.{create_all, IsConsecutive, create_all-IsConsecutive}

abbrev pub bob_uri : Uri
bob_uri = record {
  scheme = codes "sip";
  user = codes "bob";
  password = [];
  host = codes "b";
  port = pos 0;
  params = [];
  headers = [];
}

abbrev pub bob : Address
bob = record { display_name = []; quoted = false; uri = bob_uri; params = [] }

abbrev pub tagged_bob : Address
tagged_bob = record bob {
  params = record { key = codes "tag"; value = codes "z"; has_value = true } ∷ [];
}

abbrev dialog_with : Bytes → Dialog
dialog_with remote_tag = record {
  call_id = codes "c";
  local_tag = codes "l";
  remote_tag = remote_tag;
  local = some bob;
  remote = some bob;
  remote_target = none;
  route_set = [];
  state = early;
  local_seq = 4294967295;
  remote_seq = 0;
}

abbrev one_dialog : Manager
one_dialog = record { dialogs = λ r. dialog_with []; index = [] }

abbrev ok_from_bob : Response
ok_from_bob = record (new_response (pos 200) []) {
  headers = addr_header (codes "To") tagged_bob ∷ [];
}

tag-bob : tag_of (Message.to ok_from_bob.headers) ≡ codes "z"
unfolding gb.Message.to gb.Message.address_of gb.Headers.get canonical_name name bytes_eq
    gb.Header.Address.tag gb.Params.get equal_fold to_lower lower
tag-bob = refl

tag-bob-apart : codes "z" ≢ []
tag-bob-apart e = cc

retagged_is_lost_example :
    let m = change 0 (update_from_response ok_from_bob) (add 0 one_dialog) in
    (find (id (m.dialogs 0)) m.index ≡ none)
    × ((remove 0 m).index ≡ m.index)
    × (find (id (dialog_with [])) (remove 0 m).index ≡ some 0)
retagged_is_lost_example =
    retagged_is_lost 0 ok_from_bob one_dialog (rw tag-bob refl) (rw tag-bob tag-bob-apart)
      (unfold find in refl)

-- the numbers go round at 2^32
create_all-IsConsecutive_example :
    IsConsecutive 4294967295 (create_all (dialog_with []) (Message.bye ∷ codes "INFO" ∷ []))
create_all-IsConsecutive_example =
    create_all-IsConsecutive (Message.bye ∷ codes "INFO" ∷ []) (dialog_with [])

-- a user part that tries to add a header line
abbrev nasty_uri : Uri
nasty_uri = record bob_uri { user = codes "a" ++ (13 ∷ 10 ∷ codes "Via: x") }

to_string-IsClean_example : IsClean (gb.Uri.to_string nasty_uri)
to_string-IsClean_example = to_string-IsClean nasty_uri
