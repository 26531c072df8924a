-- ===== src/Lib.antt =====
-- Verification of the election programs of this repository: the server and the client of
-- CSCI4061_asn4, the multithreaded vote counter of CSCI4061_asn3, the three programs of
-- CSCI4061_asn2 and the vote counter of CSCI4061_asn1; and of four exercises: the matrix addition
-- of CSCI4061-rec8, the bank of CSCI4061-rec9, the dining philosophers of CSCI4061-rec11 and the
-- account server of CSCI4061-rec13.
--
-- The server (CSCI4061_asn4/server.c) keeps a linked list of regions, read from a DAG file by
-- createDAG. A region has children, two flags for its polls and a chain of counters, one for each
-- candidate. A client (CSCI4061_asn4/client.c) turns a file of commands into requests, each ended
-- by a 0 byte; runThread cuts the bytes at the 0, and dispatchCode runs one handler for each
-- request and sends an answer. The vote counter (CSCI4061_asn3/votecounter.c) does the same count
-- with files: its threads decrypt the leaves' files and add them up along a tree of directories.
-- The programs of CSCI4061_asn2 run one process for each directory: Leaf_Counter.c counts the
-- votes of a leaf, Aggregate_Votes.c adds up the files that the processes below have written, and
-- Vote_Counter.c prints the winner. The vote counter of CSCI4061_asn1 runs one program for each
-- node of a DAG that it reads from a file.
--
-- Base: what a run of C code comes to (Run), C's int (Word), lists with native lengths. Text:
-- trimwhitespace, trimlastenter, makeargv and atoi on strings, which are lists of bytes.
-- Server/State: struct candidate_node and struct candidateCount as records; a pointer to a region
-- is its position in the list. Server/Dag: createDAG. Server/Polls: Open_Polls and Close_Polls.
-- Server/Votes: Add_Votes and Remove_Votes. Server/Count: aggregate, Count_Votes and
-- Return_Winner. Server/Region: Add_Region. Server/Dispatch: dispatchCode and Invalid_Code.
-- Server/Thread: runThread and main. Server/Invariant: children behind their regions in the list.
-- The modules below these hold the proofs. Client: client.c, with its table (Tally), its requests
-- as the server reads them (Requests and, for those with votes, Rows, Pairs, Voting, Deliver,
-- Withdraw) and its socket (Send). VoteCounter/Decrypt, Queue, Threads (Safe, Stuck), Paths,
-- Files: the functions of votecounter.c. DirVotes: the programs of CSCI4061_asn2, with the search
-- for links that lead back (Links), the votes in a tree of directories (Ballots), the chain of
-- candidates (Chain, Front), the files' names (FilePath), the line of counts (Line), and what the
-- programs write (Sums, Winner). ForkVotes: the vote counter of CSCI4061_asn1: creatTree, its
-- search for loops (Links), findRoot (Descendants), and execNodes with the order of its commands
-- (Exec, Prepend, Order). VoteCounter/Files/Merge, Climb and Winner: aggregate from a leaf to the
-- root, and findwinner. VoteCounter/Worker (Counts): readInput, writeToLog and runThread.
-- VoteCounter/Clean (Gone): removeDIR. VoteCounter/Setup (Fresh): main up to decryptAll.
-- Client/NewRegion: the request of Add_Region. Bank: the threads of CSCI4061-rec9/rec9.c and who
-- has which mutex (Owners), what they make of the balances (Sums, Balance, Finish). Philosophers:
-- the threads of CSCI4061-rec11/rec11.c (Safe, Alone, Finish). MatrixAdd (Rows): the threads of
-- CSCI4061-rec8/rec8.c. AccountServer (Requests): the loop of CSCI4061-rec13/server.c. Samples:
-- regions and theorems at concrete inputs.
--
-- A read through a null pointer is the result fault, exit() is exit. Recursion that is not
-- structural runs on fuel and gives loops when that is used up; the number of regions is enough
-- fuel for Open_Polls and Close_Polls (each level opens or closes a region) and for aggregate (a
-- child stands behind its parent), and one for each level of the tree for that of the vote
-- counter, which the theorems prove. The balances of the bank are doubles that hold whole numbers
-- far below 2^53, so they are whole numbers here; for the account server double and its addition
-- are parameters. An int is a number below 2^32 that wraps around.
--
-- Not modelled: the sizes of the buffers, a failing malloc, what is printed to the console, the
-- sockets' set-up. Memory from malloc is taken to read as zero, which the server's flags and
-- chains rely on. main joins each thread before the next accept, so the connections are served in
-- turn. In runThread the one-byte buffer is taken to be followed by a 0. In the vote counter
-- runThread's work on files is modelled for one thread at a time, apart from the threads of
-- decryptAll; removeDIR meets no links, and what unlink and rmdir can remove is a parameter. In
-- CSCI4061_asn2 /usr/bin/sort is a parameter that is taken to reorder the lines, and which files
-- can be opened is one in find_loop; the trees of DirVotes have no links, which are modelled on
-- their own. What the file system gives the client is a parameter. In CSCI4061_asn1 a process
-- that becomes another program is a command, the programs themselves are not in the repository,
-- and parseInput, which passes an unset local variable on as the number of nodes, is not modelled
-- as a whole. The other recitation exercises, mostly single calls of the operating system, are
-- not modelled.
pub mod AccountServer
pub mod Bank
pub mod Base
pub mod Client
pub mod DirVotes
pub mod ForkVotes
pub mod MatrixAdd
pub mod Philosophers
mod Samples
pub mod Server
pub mod Text
pub mod VoteCounter
