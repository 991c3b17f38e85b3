-- ===== src/Protocol/Messages/Tests.antt =====
-- Messages of a client: an instance of each result.
use scry_proxy.Base.{refl, none, some, [], ◌∷◌, arith, Bytes, codes}
use scry_proxy.Protocol.Utf8.{is_utf8, utf8_from, utf8_step}
use scry_proxy.Protocol.Messages.{Message, bind_msg}
use scry_proxy.Protocol.Messages.RoundTrip.{IsText}

abbrev name : Bytes
name = codes "s1"

abbrev query : Bytes
query = codes "SELECT $1"

query-IsText : IsText query
unfolding is_utf8 utf8_from utf8_step
query-IsText = record { no_nul = ground arith; utf8 = refl }

abbrev bind : Message
bind = bind_msg name name (1 ∷ []) (some (codes "42") ∷ none ∷ [])
