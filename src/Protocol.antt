-- ===== src/Protocol.antt =====
-- protocol.go: the cell that clients and servers exchange over the websocket.
use minedive.Common.{[], ◌++◌, Bytes, bytes}

pub record Cell : Type 0 where
  pub type : Bytes
  pub d0 : Bytes
  pub d1 : Bytes
  pub d2 : Bytes
  pub d3 : Bytes

-- `Cell{}`
abbrev pub zero_cell : Cell
zero_cell = record { type = []; d0 = []; d1 = []; d2 = []; d3 = [] }

-- `(*Cell).String`
pub cell_string : Cell → Bytes
cell_string a =
    a.type
    ++ (bytes " ("
        ++ (a.d0
            ++ (bytes " "
                ++ (a.d1 ++ (bytes " " ++ (a.d2 ++ (bytes " " ++ (a.d3 ++ bytes ")"))))))))
