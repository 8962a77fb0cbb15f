-- ===== src/Reply/Listing.antt =====
-- The text that `toBSONObj` of src/asio_processor.cc prints, and where its buffer is too short.
use zbroker.Base.{ℕ, suc, List, [], ◌∷◌, ◌++◌, Text, codes}
use zbroker.Reply.{entry}

-- The entries of an object, one for each document, under their numbers.
abbrev pub listed : ℕ → Text → List Text → Text
listed i doc [] = entry i doc (codes " }")
listed i doc (next ∷ rest) = entry i doc (codes ",") ++ listed (suc i) next rest

-- The last of a document and those after it.
abbrev pub last_of : Text → List Text → Text
last_of doc [] = doc
last_of doc (next ∷ rest) = last_of next rest
