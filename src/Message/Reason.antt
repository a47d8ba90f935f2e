-- ===== src/Message/Reason.antt =====
-- message.go: DefaultReason.
use gb.Base.{ℕ, List, [], ◌∷◌, ℤ, pos, ltz, eqz, if◌then◌else◌, Bytes, codes}

abbrev pub reasons : List (ℕ × Bytes)
reasons =
    (100, codes "Trying")
    ∷ (180, codes "Ringing")
    ∷ (183, codes "Session Progress")
    ∷ (200, codes "OK")
    ∷ (202, codes "Accepted")
    ∷ (301, codes "Moved Permanently")
    ∷ (302, codes "Moved Temporarily")
    ∷ (400, codes "Bad Request")
    ∷ (401, codes "Unauthorized")
    ∷ (403, codes "Forbidden")
    ∷ (404, codes "Not Found")
    ∷ (407, codes "Proxy Authentication Required")
    ∷ (408, codes "Request Timeout")
    ∷ (415, codes "Unsupported Media Type")
    ∷ (420, codes "Bad Extension")
    ∷ (421, codes "Extension Required")
    ∷ (423, codes "Interval Too Brief")
    ∷ (480, codes "Temporarily Unavailable")
    ∷ (481, codes "Call/Transaction Does Not Exist")
    ∷ (483, codes "Too Many Hops")
    ∷ (486, codes "Busy Here")
    ∷ (487, codes "Request Terminated")
    ∷ (488, codes "Not Acceptable Here")
    ∷ (500, codes "Server Internal Error")
    ∷ (501, codes "Not Implemented")
    ∷ (502, codes "Bad Gateway")
    ∷ (503, codes "Service Unavailable")
    ∷ (504, codes "Server Time-out")
    ∷ (600, codes "Busy Everywhere")
    ∷ (603, codes "Decline")
    ∷ (604, codes "Does Not Exist Anywhere")
    ∷ []

unfoldable pub class_reason : ℤ → Bytes
class_reason code =
    if ltz code (pos 200)
    then codes "Provisional"
    else if ltz code (pos 300)
    then codes "Success"
    else if ltz code (pos 400)
    then codes "Redirection"
    else if ltz code (pos 500)
    then codes "Client Error"
    else if ltz code (pos 600)
    then codes "Server Error"
    else codes "Global Failure"

unfoldable pub lookup_reason : ℤ → List (ℕ × Bytes) → Bytes
unfolding class_reason
lookup_reason code [] = class_reason code
lookup_reason code ((k, r) ∷ table) = if eqz (pos k) code then r else lookup_reason code table

unfoldable pub default_reason : ℤ → Bytes
unfolding lookup_reason
default_reason code = lookup_reason code reasons
