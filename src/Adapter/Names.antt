-- ===== src/Adapter/Names.antt =====
-- internal/parser/adapter/adapter.go: the identities of symbols and references.
use ikemen_devtools.Prelude.{ℕ, zero, suc, ◌+◌, ◌/◌, ◌%◌, [], ◌∷◌, ◌++◌, ltb, if◌then◌else◌}
use ikemen_devtools.Prelude.Text.{Bytes, codes, bytes_eq}
use ikemen_devtools.Ir.Documents.{Identity, identity_contract_version}

-- "%d" of a number, least digit first; each round takes a digit.
decimal_digits : ℕ → ℕ → Bytes → Bytes
decimal_digits zero n s = s
decimal_digits (suc fuel) n s =
    let rest = decimal_digits fuel (n / 10) ((48 + n % 10) ∷ s) in
    if ltb n 10 then (48 + n) ∷ s else rest

unfoldable pub print_number : ℕ → Bytes
unfolding decimal_digits
print_number n = decimal_digits (suc n) n []

abbrev colon : Bytes
colon = codes ":"

-- stateSymbolID, stateControllerSymbolID and the store's identity of `symbolIdentity`.
unfoldable pub state_symbol_id : Bytes → ℕ → Bytes → Bytes
state_symbol_id name line_no path_id =
    name ++ (colon ++ (print_number line_no ++ (colon ++ path_id)))

unfoldable pub command_symbol_id : Bytes → ℕ → Bytes → Bytes
command_symbol_id name line_no path_id = state_symbol_id (codes "command:" ++ name) line_no path_id

unfoldable pub symbol_identity : Bytes → ℕ → Bytes → Identity
symbol_identity semantic_key line_no path_id = record {
  contract_version = identity_contract_version;
  semantic_key = semantic_key;
  occurrence_id = semantic_key ++ (codes "@" ++ (path_id ++ (colon ++ print_number line_no)));
  store_id = state_symbol_id semantic_key line_no path_id;
}

-- The identity of a reference, with the identifier of the reference itself.
unfoldable pub reference_identity : Bytes → ℕ → Bytes → Bytes → Identity
reference_identity semantic_key line_no path_id id = record {
  contract_version = identity_contract_version;
  semantic_key = semantic_key;
  occurrence_id = path_id ++ (colon ++ print_number line_no);
  store_id = id;
}

unfoldable pub reference_id : Bytes → ℕ → Bytes → Bytes → Bytes
reference_id kind line_no path_id occurrence =
    codes "ref:"
    ++ (kind
        ++ (colon
            ++ (print_number line_no
                ++ (colon
                    ++ (path_id ++ (if bytes_eq occurrence [] then [] else colon ++ occurrence))))))
