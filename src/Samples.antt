-- ===== src/Samples.antt =====
-- A concrete digest for the examples: the texts of the record, one after the other.
use Prim.Native.String.{◌++◌ as str_append}
use proofos.Prelude.{String, true, false, [], ◌∷◌}
use proofos.Prelude.Int.{pos, negsuc}
use proofos.Integrity.{
  Json, null, text, flag, number, literal, object, texts, requirement_list, pair_list, policy,
  vote_list, Fields,
}

abbrev pub shown : Json → String
shown null = "null"
shown (text s) = s
shown (flag true) = "true"
shown (flag false) = "false"
shown (number (pos n)) = "number"
shown (number (negsuc n)) = "negative"
shown (literal s) = s
shown (object d) = "object"
shown (texts ss) = "texts"
shown (requirement_list rs) = "requirements"
shown (pair_list ps) = "pairs"
shown (policy i ws n) = i
shown (vote_list vs) = "votes"

abbrev pub joined : Fields → String
joined [] = ""
joined ((k, v) ∷ rest) = str_append (shown v) (str_append "," (joined rest))
